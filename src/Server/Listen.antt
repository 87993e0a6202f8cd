-- ===== src/Server/Listen.antt =====
-- main.go, `startServer`: the settings of the HTTP server, and how it listens.
use atlas_exporter.Config.Accept.{IsValid}
use atlas_exporter.Float.{Floats}
use atlas_exporter.Prelude.{if◌then◌else◌, ℕ, ◌≡◌, false, ◌⊎◌, ◌≢◌, [], Bool-cases, inl, inr, refl}
use atlas_exporter.Prelude.Int.{ℤ, pos}
use atlas_exporter.Config.{Config}
use atlas_exporter.Prelude.Text.{Text}

-- The fields of http.Server that are set; times are in nanoseconds.
pub record HttpServer : Type 0 where
  pub addr : Text
  pub read_timeout : ℤ
  pub read_header_timeout : ℤ
  pub write_timeout : ℤ
  pub idle_timeout : ℤ
  pub max_header_bytes : ℕ

-- The call that serves.
pub data Listening : Type 0 where
  listen_and_serve_tls : Text → Text → Listening
  listen_and_serve : Listening

module _ {F : Type 0} where
  unfoldable pub new_server : Config F → HttpServer
  new_server cfg = record {
    addr = cfg.web.listen_address;
    read_timeout = pos 10000000000;
    read_header_timeout = pos 5000000000;
    write_timeout = pos 10000000000;
    idle_timeout = pos 60000000000;
    max_header_bytes = 1048576;
  }

  unfoldable pub listening : Config F → Listening
  listening cfg =
      if cfg.tls.enabled
      then listen_and_serve_tls cfg.tls.cert_file cfg.tls.key_file
      else listen_and_serve

module _ {F : Type 0} ⦃fl : Floats F⦄ where
  -- With a configuration that meets the conditions of `Validate` the server listens in the plain, with TLS
  -- switched off, or with the two files of the configuration, neither name empty.
  listening-IsValid :
      (cfg : Config F)
      → IsValid cfg
      → ((listening cfg ≡ listen_and_serve) × (cfg.tls.enabled ≡ false))
        ⊎ ((listening cfg ≡ listen_and_serve_tls cfg.tls.cert_file cfg.tls.key_file)
            × (cfg.tls.cert_file ≢ [])
            × (cfg.tls.key_file ≢ []))
  unfolding listening
  listening-IsValid cfg ok = elim (Bool-cases cfg.tls.enabled) [
    | inl on ↦ inr (rw on refl, (ok.tls on).0, (ok.tls on).1)
    | inr off ↦ inl (rw off refl, off)
  ]
