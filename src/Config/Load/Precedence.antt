-- ===== src/Config/Load/Precedence.antt =====
-- Which source a value of the configuration comes from.
use atlas_exporter.Prelude.Equality.{◌==◌, list_eq, nat_eq, eqb_list_iff}
use atlas_exporter.Prelude.Dict.{Dict, lookup, lookup-insert, insert}
use atlas_exporter.Prelude.Text.{Text}
use atlas_exporter.Prelude.{
  Option, ◌≡◌, some, List, none, if◌then◌else◌, ◌∷◌, arith, ◌&&◌, [], ◌∙◌, refl, Bool, true, false,
  ◌++◌, ◌≢◌, ◌⊎◌, All,
}
use atlas_exporter.Config.Load.{Koanf, flag_source, load_sources, ParsedFlag, load_file}

-- The second key is that of something inside what the first is the key of.
abbrev pub Under : Text → Text → Type 0
Under a b = (rest : Text) × (b ≡ a ++ b'.' ∷ rest)

-- Neither key is, or is inside, the other.
abbrev pub Unrelated : Text → Text → Type 0
Unrelated a b = (a ≢ b) × ¬ (Under a b) × ¬ (Under b a)

module _ {V : Type 0} (is_map : V → Bool) (key : Text) where
  -- At the key there is no nested map, and the entry is not inside it or around it.
  abbrev pub PlainEntry : Text × V → Type 0
  PlainEntry (name, v) = ((name ≡ key) × (is_map v ≡ false)) ⊎ Unrelated name key

  abbrev pub Plain : Dict Text V → Type 0
  Plain source = All PlainEntry source

  abbrev pub PlainFlags : List (ParsedFlag V) → Type 0
  PlainFlags flags = All (λ (f : ParsedFlag V). PlainEntry (f.name, f.value)) flags

-- What the code relies on in koanf, at a key that a source does not divide further: if the source has it, its
-- value wins, and else the value stays. Of a nested map the entries are merged one by one instead.
pub record Merges {V S : Type 0} (is_map : V → Bool) (k : Koanf V S) : Type 0 where
  pub new-get : (key : Text) → key ≢ [] → k.get key k.new ≡ none
  pub load-get :
      (key : Text) (source : Dict Text V) (s : S)
      → key ≢ []
      → Plain is_map key source
      → k.get key (k.load source s)
        ≡ elim (lookup key source) [ none ↦ k.get key s | some v ↦ some v ]

module _ {V : Type 0} where
  -- The first that is there.
  abbrev pub or_first : Option V → Option V → Option V
  or_first (some v) o = some v
  or_first none o = o

  -- The flag of that name, and the flag of that name if the command line has set it.
  abbrev pub flagged : Text → List (ParsedFlag V) → Option V
  flagged key [] = none
  flagged key (f ∷ fs) = if f.name == key then some f.value else flagged key fs

  abbrev pub given : Text → List (ParsedFlag V) → Option V
  given key [] = none
  given key (f ∷ fs) = if f.changed && f.name == key then some f.value else given key fs

  abbrev pub from_file : (Text → Option (Dict Text V)) → Text → Text → Option V
  from_file read_yaml path key =
      if path == []
      then none
      else elim (read_yaml path) [ none ↦ none | some source ↦ lookup key source ]

module _ {V S : Type 0} (is_map : V → Bool) (k : Koanf V S) (laws : Merges is_map k) (key : Text)
    (named : key ≢ []) where
  if-Plain :
      (b : Bool) (xs ys : Dict Text V)
      → Plain is_map key xs
      → Plain is_map key ys
      → Plain is_map key (if b then xs else ys)
  if-Plain true xs ys h l = h
  if-Plain false xs ys h l = l

  insert-Plain :
      (name : Text) (v : V) (source : Dict Text V)
      → PlainEntry is_map key (name, v)
      → Plain is_map key source
      → Plain is_map key (insert name v source)
  unfolding insert
  insert-Plain name v [] h l = (h, tt)
  insert-Plain name v ((i, w) ∷ source) h l =
      if-Plain (i == name) ((name, v) ∷ source) ((i, w) ∷ insert name v source) (h, l.1)
        (l.0, insert-Plain name v source h l.1)

  flag_source-Plain :
      (s : S) (flags : List (ParsedFlag V))
      → PlainFlags is_map key flags
      → Plain is_map key (flag_source k s flags)
  unfolding flag_source
  flag_source-Plain s [] h = tt
  flag_source-Plain s (f ∷ fs) h =
      let rest = flag_source-Plain s fs h.1 in
      let with_flag = insert-Plain f.name f.value (flag_source k s fs) h.0 rest in
      if-Plain f.changed (insert f.name f.value (flag_source k s fs)) _ with_flag
        (unset (k.get f.name s) _ _ with_flag rest)
    where
      unset :
          (o : Option V) (xs ys : Dict Text V)
          → Plain is_map key xs
          → Plain is_map key ys
          → Plain is_map key (elim o [ none ↦ xs | some v ↦ ys ])
      unset none xs ys h l = h
      unset (some v) xs ys h l = l

  lookup-flag_source :
      (s : S) (flags : List (ParsedFlag V))
      → lookup key (flag_source k s flags)
        ≡ elim (k.get key s) [ none ↦ flagged key flags | some v ↦ given key flags ]
  unfolding flag_source lookup
  lookup-flag_source s [] = ground arith
  lookup-flag_source s (f ∷ fs) = ground (
    arith,
    lookup-insert f.name key f.value (flag_source k s fs),
    eqb_list_iff f.name key,
    lookup-flag_source s fs,
  )

  load-or_first :
      (source : Dict Text V) (s : S)
      → Plain is_map key source
      → k.get key (k.load source s) ≡ or_first (lookup key source) (k.get key s)
  load-or_first source s plain =
      laws.load-get key source s named plain ∙ go (lookup key source) (k.get key s)
    where
      go : (o o' : Option V) → elim o [ none ↦ o' | some v ↦ some v ] ≡ or_first o o'
      go none o' = refl
      go (some v) o' = refl

  load_file-get :
      (read_yaml : Text → Option (Dict Text V)) (path : Text) (s s' : S)
      → ((source : Dict Text V) → read_yaml path ≡ some source → Plain is_map key source)
      → load_file k read_yaml path s ≡ some s'
      → k.get key s' ≡ or_first (from_file read_yaml path key) (k.get key s)
  unfolding load_file
  load_file-get read_yaml path s s' plain e = go (path == []) (read_yaml path) plain e
    where
      go :
          (b : Bool) (o : Option (Dict Text V))
          → ((source : Dict Text V) → o ≡ some source → Plain is_map key source)
          → (if b then some s else elim o [ none ↦ none | some source ↦ some (k.load source s) ])
            ≡ some s'
          → k.get key s'
            ≡ or_first
                (if b then none else elim o [ none ↦ none | some source ↦ lookup key source ])
                (k.get key s)
      go true o plain h = let same : s ≡ s' = cc in rw same refl
      go false none plain h = cc
      go false (some source) plain h =
          let same : k.load source s ≡ s' = cc in
          rw (← same) (load-or_first source s (plain source refl))

  load_flags-get :
      (flags : List (ParsedFlag V)) (s : S)
      → PlainFlags is_map key flags
      → k.get key (k.load (flag_source k s flags) s) ≡ elim (k.get key s) [
        | none ↦ flagged key flags
        | some v ↦ or_first (given key flags) (some v)
      ]
  load_flags-get flags s plain =
      load-or_first (flag_source k s flags) s (flag_source-Plain s flags plain)
      ∙ rw (lookup-flag_source s flags) (go (k.get key s))
    where
      go :
          (o : Option V)
          → or_first (elim o [ none ↦ flagged key flags | some v ↦ given key flags ]) o
            ≡ elim o [ none ↦ flagged key flags | some v ↦ or_first (given key flags) (some v) ]
      go none = ground arith
      go (some v) = refl

  -- Take a key that is not empty and that every source either has, with a value that is no nested map,
  -- or does not divide further: no other key of a source is inside it or around it. If koanf merges at
  -- such keys as it promises, and the sources are loaded without an error, then the value at the key is
  -- that of the flag that the command line set, or else of the environment, or else of the file, or else
  -- of the defaults; a flag that was not set gives its default only if no other source has the key.
  pub load_sources-get :
      (defaults : Dict Text V) (read_yaml : Text → Option (Dict Text V)) (path : Text)
      (env : Dict Text V) (flags : List (ParsedFlag V)) (s : S)
      → Plain is_map key defaults
      → ((source : Dict Text V) → read_yaml path ≡ some source → Plain is_map key source)
      → Plain is_map key env
      → PlainFlags is_map key flags
      → load_sources k defaults read_yaml path env flags ≡ some s
      → let below =
          or_first
            (lookup key env)
            (or_first (from_file read_yaml path key) (lookup key defaults)) in
        k.get key s
        ≡ elim below [ none ↦ flagged key flags | some v ↦ or_first (given key flags) (some v) ]
  unfolding load_sources load_file
  load_sources-get defaults read_yaml path env flags s plain in_file in_env in_flags e =
      go (load_file k read_yaml path (k.load defaults k.new)) refl e
    where
      base : k.get key (k.load defaults k.new) ≡ lookup key defaults
      base = load-or_first defaults k.new plain ∙ ground (arith, laws.new-get key named)

      go :
          (o : Option S)
          → load_file k read_yaml path (k.load defaults k.new) ≡ o
          → elim o [
            | none ↦ none
            | some s₁ ↦ some (k.load (flag_source k (k.load env s₁) flags) (k.load env s₁))
          ]
            ≡ some s
          → k.get key s
            ≡ elim (or_first
                (lookup key env)
                (or_first (from_file read_yaml path key) (lookup key defaults))) [
                  | none ↦ flagged key flags
                  | some v ↦ or_first (given key flags) (some v)
                ]
      go none f h = cc
      go (some s₁) f h =
          let s' = k.load env s₁ in
          let last : k.load (flag_source k s' flags) s' ≡ s = cc in
          rw (← last) (
            load_flags-get flags s' in_flags
            ∙ rw
                (
                  load-or_first env s₁ in_env,
                  load_file-get read_yaml path (k.load defaults k.new) s₁ in_file f,
                  base,
                )
                refl)
