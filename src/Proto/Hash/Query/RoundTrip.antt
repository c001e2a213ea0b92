-- ===== src/Proto/Hash/Query/RoundTrip.antt =====
-- `toQueryParams` reads back what `toQueryString` writes of a hash of texts.
use sd.Common.{
  ℕ, ◌≡◌, ◌≢◌, refl, ap, ◌∙◌, Bool, true, false, none, List, [], ◌∷◌, ◌++◌, inl, inr, arith, eqb,
  All, Bool-cases, ok, append-nil, append_assoc, text_eq, list_beq, list_beq_iff, nat_eq,
}
use sd.Proto.Text.{Text, codes, none_of, is_space, split_on, join}
use sd.Proto.Text.Laws.{split_on-join, split_on-append, split_on-none}
use sd.Proto.Strings.{strip}
use sd.Proto.Hash.{Properties, own}
use sd.Proto.Hash.Query.{encode, text, scalar, Value, newlines, all_parts, to_query_string}
use sd.Proto.Hash.Query.Params.{
  one, given, Params, query_part, param_step-nil, param_loop, to_query_params,
}
use sd.Proto.Hash.Query.Codec.{Octets, form_encode}
use sd.Proto.Hash.Query.Marks.{
  is_mark, weaken, clean-encode, clean-form_encode, strip-none_of, is_query_mark,
  query_part-none_of, own-append, param_step-pair, none_of-pair, none_of-join,
}

-- The names and texts that a query string carries: octets, names that are not empty, stand once
-- and are not those that every object inherits.
abbrev pub Sendable : (Text → Bool) → Properties Text Text → Type 0
Sendable inherited [] = Unit
Sendable inherited ((k, v) ∷ h) =
    (Octets k × Octets v × (k ≢ []) × (inherited k ≡ false) × (own k h ≡ none))
    × Sendable inherited h

-- The hash that a query string gives back: its texts with the newlines that were sent.
abbrev pub received : Properties Text Text → Properties Text Params
received [] = []
received ((k, v) ∷ h) = (k, one (given (newlines false v))) ∷ received h

-- The hash as `toQueryString` takes it.
abbrev pub texts : Properties Text Text → Properties Text Value
texts [] = []
texts ((k, v) ∷ h) = (k, scalar (text v)) ∷ texts h

-- The pairs as they are written.
abbrev written : Properties Text Text → List Text
written [] = []
written ((k, v) ∷ h) = (encode k ++ b'=' ∷ form_encode (newlines false v)) ∷ written h

all_parts-written : (h : Properties Text Text) → all_parts (texts h) ≡ written h
unfolding all_parts
all_parts-written [] = refl
all_parts-written ((k, v) ∷ h) = simp (all_parts-written h)

Octets-newlines : (cr : Bool) (s : Text) → Octets s → Octets (newlines cr s)
Octets-newlines cr [] h = ground arith
Octets-newlines cr (c ∷ s) h = ground (arith, Octets-newlines (eqb c 13) s)

-- No name is new to the hash built so far.
abbrev Unknown : Properties Text Params → Properties Text Text → Type 0
Unknown acc [] = Unit
Unknown acc ((k, v) ∷ h) = (own k acc ≡ none) × Unknown acc h

Unknown-append :
    (acc : Properties Text Params) (k : Text) (p : Params) (h : Properties Text Text)
    → Unknown acc h
    → own k h ≡ none
    → Unknown (acc ++ (k, p) ∷ []) h
unfolding own
Unknown-append acc k p [] u e = tt
Unknown-append acc k p ((j, v) ∷ h) u e = elim (Bool-cases (list_beq j k)) [
  | inl t ↦ absurd (ground arith)
  | inr t ↦ (own-append j k p acc u.0 (swapped j k t), Unknown-append acc k p h u.1 (simp t at e))
]
  where
    swapped : (j k : Text) → list_beq j k ≡ false → list_beq k j ≡ false
    swapped j k t = ground (arith, list_beq_iff j k, list_beq_iff k j)

not_equals : (c : ℕ) → is_mark c ≡ false → eqb c b'=' ≡ false
unfolding is_mark
not_equals c h = ground arith

not_ampersand : (c : ℕ) → is_mark c ≡ false → eqb c b'&' ≡ false
unfolding is_mark
not_ampersand c h = ground arith

not_space : (c : ℕ) → is_mark c ≡ false → is_space c ≡ false
unfolding is_mark
not_space c h = ground arith

not_query_mark : (c : ℕ) → is_mark c ≡ false → is_query_mark c ≡ false
unfolding is_mark is_query_mark
not_query_mark c h = ground arith

split_on-pair :
    (k v : Text)
    → Octets k
    → Octets v
    → split_on b'=' (encode k ++ b'=' ∷ form_encode v) ≡ encode k ∷ (form_encode v ∷ [])
split_on-pair k v hk hv =
    split_on-append b'=' (encode k) (form_encode v)
      (weaken is_mark _ not_equals _ (clean-encode k hk))
    ∙ ap (encode k ∷◌) (
        split_on-none b'=' (form_encode v) (weaken is_mark _ not_equals _ (clean-form_encode v hv)))

module _ (inherited : Text → Bool) where
  param_loop-written :
      (h : Properties Text Text) (acc : Properties Text Params)
      → Sendable inherited h
      → Unknown acc h
      → param_loop inherited acc (written h) ≡ ok (acc ++ received h)
  unfolding param_loop
  param_loop-written [] acc s u = rw append-nil
  param_loop-written ((k, v) ∷ h) acc s u =
      let octets = Octets-newlines false v s.0.1 in
      let p = one (given (newlines false v)) in
      rw
        (
          split_on-pair k (newlines false v) s.0.0 octets,
          param_step-pair inherited k (newlines false v) acc s.0.0 octets s.0.2 u.0 s.0.3,
        )
        (param_loop-written h (acc ++ (k, p) ∷ []) s.1 (Unknown-append acc k p h u.1 s.0.4)
          ∙ rw append_assoc)

  Unknown-nil : (h : Properties Text Text) → Unknown [] h
  unfolding own
  Unknown-nil [] = tt
  Unknown-nil ((k, v) ∷ h) = (refl, Unknown-nil h)

  All-written :
      (q : ℕ → Bool)
      → ((c : ℕ) → is_mark c ≡ false → q c ≡ false)
      → q b'=' ≡ false
      → (h : Properties Text Text) → Sendable inherited h
      → All (λ p. none_of q p ≡ true) (written h)
  All-written q w e [] s = tt
  All-written q w e ((k, v) ∷ h) s = (
    none_of-pair q w k (newlines false v) s.0.0 (Octets-newlines false v s.0.1) e,
    All-written q w e h s.1,
  )

  query_part-strip :
      (h : Properties Text Text)
      → Sendable inherited h
      → query_part (strip (join (codes "&") (written h))) ≡ join (codes "&") (written h)
  query_part-strip h s =
      rw
        (strip-none_of _ (
          none_of-join is_space not_space (codes "&") (written h) refl
            (All-written is_space not_space refl h s)))
        (query_part-none_of _ (
          none_of-join is_query_mark not_query_mark (codes "&") (written h)
            (unfold is_query_mark in refl)
            (All-written is_query_mark not_query_mark (unfold is_query_mark in refl) h s)))

  split_on-written :
      (h : Properties Text Text)
      → Sendable inherited h
      → param_loop inherited [] (split_on b'&' (join (codes "&") (written h)))
        ≡ param_loop inherited [] (written h)
  split_on-written [] s = unfold param_loop in rw param_step-nil
  split_on-written ((k, v) ∷ h) s =
      ap (param_loop inherited [])
        (split_on-join b'&' _ (written h) (All-written _ not_ampersand refl ((k, v) ∷ h) s))

  -- `toQueryParams` reads the string that `toQueryString` writes of a hash of texts, and gives the
  -- hash back, with `\r\n` for each newline; it throws no error. The names and texts are octets;
  -- the names are not empty, stand once, and are none that every object inherits.
  pub to_query_params-to_query_string :
      (h : Properties Text Text)
      → Sendable inherited h
      → to_query_params inherited b'&' (to_query_string (texts h)) ≡ ok (received h)
  unfolding to_query_params to_query_string
  to_query_params-to_query_string h s =
      rw (all_parts-written h, query_part-strip h s, split_on-written h s)
        (param_loop-written h [] s (Unknown-nil h))
