-- ===== src/Atlas/Request/Gather.antt =====
-- What the receiving loop of a scrape returns.
use mathlib.Core.List.{append-nil, append_assoc}
use atlas_exporter.Exporter.Measurement.{Measurement}
use atlas_exporter.Atlas.Request.{gather}
use atlas_exporter.Prelude.{
  Option, ℕ, Bool, List, true, some, ◌≡◌, [], ltb, if◌then◌else◌, length, none, ◌++◌, arith, suc,
  ◌∷◌, ◌∙◌, zero, sym, false,
}

abbrev pub in_time : Option ℕ → ℕ → Bool
in_time none k = true
in_time (some n) k = ltb k n

module _ {F : Type 0} where
  gather-append :
      (deadline : Option ℕ) (sent res : List (Measurement F))
      → gather deadline sent res
        ≡ (if in_time deadline (length sent) then some (res ++ sent) else none)
  unfolding gather
  gather-append (some zero) sent res = ground arith
  gather-append (some (suc n)) [] res = rw (append-nil res) (ground arith)
  gather-append none [] res = rw (append-nil res)
  gather-append (some (suc n)) (m ∷ sent) res =
      gather-append (some n) sent (res ++ m ∷ [])
      ∙ rw (append_assoc res (m ∷ []) sent) (ground arith)
  gather-append none (m ∷ sent) res =
      gather-append none sent (res ++ m ∷ []) ∙ rw (append_assoc res (m ∷ []) sent)

  -- Everything that is sent, if the context is not done before it has all been received, and else an error.
  pub gather_lem :
      (deadline : Option ℕ) (sent : List (Measurement F))
      → gather deadline sent [] ≡ (if in_time deadline (length sent) then some sent else none)
  gather_lem deadline sent = gather-append deadline sent []

  if-eq-some :
      (b : Bool) (xs ys : List (Measurement F)) → (if b then some xs else none) ≡ some ys → xs ≡ ys
  if-eq-some true xs ys h = cc
  if-eq-some false xs ys h = cc

  pub gather-eq-some :
      (deadline : Option ℕ) (sent res : List (Measurement F))
      → gather deadline sent [] ≡ some res
      → sent ≡ res
  gather-eq-some deadline sent res e =
      if-eq-some (in_time deadline (length sent)) sent res (sym (gather_lem deadline sent) ∙ e)
