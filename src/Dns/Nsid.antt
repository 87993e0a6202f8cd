-- ===== src/Dns/Nsid.antt =====
-- What an NSID label looks like.
use atlas_exporter.Result.{DnsResult, EdnsOption, Unpacked}
use atlas_exporter.Prelude.Text.{Text}
use atlas_exporter.Prelude.{
  ℕ, Option, ◌<◌, ◌≡◌, some, ◌*◌, arith, ◌+◌, map, ◌∷◌, subst, ◌/◌, none, [], ◌%◌, refl, ◌∙◌, ltb,
  true, if◌then◌else◌, List, ◌||◌, Bool-cases, false, inl, Option-cases, inr,
}
use atlas_exporter.Dns.{
  nibble, decode_string, encode_to_string, is_ascii_printable, extract_nsid, nsid_loop, hex_digit,
  decode_pair,
}
use atlas_exporter.Config.Env.{to_lower}

nibble-lt : (c n : ℕ) → nibble c ≡ some n → n < 16
unfolding nibble
nibble-lt c n h = ground arith

-- A digit that is read and written again is in lower case.
hex_digit-nibble : (c n : ℕ) → nibble c ≡ some n → hex_digit n ≡ to_lower c
unfolding nibble hex_digit to_lower
hex_digit-nibble c n h = ground arith

decode_pair-eq-some :
    (a b : Option ℕ) (o : Option Text) (raw : Text)
    → decode_pair a b o ≡ some raw
    → (x : ℕ) × (y : ℕ) × (rest : Text) × (a ≡ some x)
      × (b ≡ some y)
      × (o ≡ some rest)
      × (raw ≡ (x * 16 + y) ∷ rest)
decode_pair-eq-some none b o raw h = cc
decode_pair-eq-some (some a) none o raw h = cc
decode_pair-eq-some (some a) (some b) none raw h = cc
decode_pair-eq-some (some a) (some b) (some rest) raw h = (a, b, rest, refl, refl, refl, cc)

encode-pair :
    (x y : ℕ) (rest : Text)
    → x < 16
    → y < 16
    → encode_to_string ((x * 16 + y) ∷ rest) ≡ hex_digit x ∷ hex_digit y ∷ encode_to_string rest
unfolding encode_to_string
encode-pair x y rest h k =
    let high : (x * 16 + y) / 16 ≡ x = omega arith in
    let low : (x * 16 + y) % 16 ≡ y = omega arith in rw (high, low)

-- Decoding and encoding a hexadecimal text gives it back in lower case.
pub encode-decode :
    (s raw : Text) → decode_string s ≡ some raw → encode_to_string raw ≡ map to_lower s
unfolding decode_string
encode-decode [] raw h =
    let same : [] ≡ raw = cc in
    subst (λ (t : Text). encode_to_string t ≡ []) same (unfold encode_to_string in refl)
encode-decode (c ∷ []) raw h = cc
encode-decode (c ∷ d ∷ s) raw h =
    let (x, y, rest, a, b, o, e) =
      decode_pair-eq-some (nibble c) (nibble d) (decode_string s) raw h in
    rw e (
      encode-pair x y rest (nibble-lt c x a) (nibble-lt d y b)
      ∙ rw (hex_digit-nibble c x a, hex_digit-nibble d y b, encode-decode s rest o))

hex_digit-printable : (n : ℕ) → n < 16 → (ltb (hex_digit n) 32 || ltb 126 (hex_digit n)) ≡ false
unfolding hex_digit
hex_digit-printable n h = ground arith

encode-printable :
    (s raw : Text) → decode_string s ≡ some raw → is_ascii_printable (encode_to_string raw) ≡ true
unfolding decode_string is_ascii_printable
encode-printable [] raw h =
    let same : [] ≡ raw = cc in
    subst (λ (t : Text). is_ascii_printable (encode_to_string t) ≡ true) same
      (unfold encode_to_string in refl)
encode-printable (c ∷ []) raw h = cc
encode-printable (c ∷ d ∷ s) raw h =
    let (x, y, rest, a, b, o, e) =
      decode_pair-eq-some (nibble c) (nibble d) (decode_string s) raw h in
    rw (e, encode-pair x y rest (nibble-lt c x a) (nibble-lt d y b))
      (rw (hex_digit-printable x (nibble-lt c x a))
        (rw (hex_digit-printable y (nibble-lt d y b)) (encode-printable s rest o)))

nsid_text : Text → Text
nsid_text raw = if is_ascii_printable raw then raw else encode_to_string raw

nsid_text-printable :
    (s raw : Text) → decode_string s ≡ some raw → is_ascii_printable (nsid_text raw) ≡ true
unfolding nsid_text
nsid_text-printable s raw h = elim (Bool-cases (is_ascii_printable raw)) [
  | inl yes' ↦ rw yes' yes'
  | inr no' ↦ rw no' (encode-printable s raw h)
]

nsid_loop-printable : (os : List EdnsOption) → is_ascii_printable (nsid_loop os) ≡ true
unfolding nsid_loop nsid_text
nsid_loop-printable [] = unfold is_ascii_printable in refl
nsid_loop-printable (EdnsOption.other ∷ os) = nsid_loop-printable os
nsid_loop-printable (EdnsOption.nsid t ∷ os) = elim (Option-cases (decode_string t)) [
  | inl bad ↦ rw (bad, nsid_loop) (nsid_loop-printable os)
  | inr (raw, e) ↦ rw (e, nsid_loop) (nsid_text-printable t raw e)
]

-- The NSID that is read from a DNS result has printable ASCII characters only, whatever the answer
-- holds.
pub extract_nsid-printable :
    {F : Type 0} (d : DnsResult F) → is_ascii_printable (extract_nsid d) ≡ true
unfolding extract_nsid is_ascii_printable
extract_nsid-printable d = go d.unpack_abuf
  where
    go :
        (u : Unpacked)
        → is_ascii_printable (elim u [
          | Unpacked.failed ↦ []
          | Unpacked.nil ↦ []
          | Unpacked.no_edns0 ↦ []
          | Unpacked.edns0 options ↦ nsid_loop options
        ])
          ≡ true
    go Unpacked.failed = refl
    go Unpacked.nil = refl
    go Unpacked.no_edns0 = refl
    go (Unpacked.edns0 options) = nsid_loop-printable options
