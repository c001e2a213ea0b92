-- ===== src/Proto/Hash/Query/Marks.antt =====
-- The units that have a meaning in a query string, and that encoded texts are free of them.
use mathlib.Core.List.{reverse, reverse-cons, reverse-reverse}
use sd.Common.{
  ℕ, ◌/◌, ◌%◌, ◌<◌, ◌≡◌, ◌≢◌, refl, ap, ◌∙◌, Bool, true, false, ◌||◌, none, List, [], ◌∷◌, ◌++◌,
  inl, inr, arith, eqb, All, Bool-cases, ok, text_eq, list_beq, nat_eq,
}
use sd.Proto.Text.{Text, codes, none_of, is_space, join}
use sd.Proto.Text.Laws.{none_of-append, trim_left-none}
use sd.Proto.Strings.{strip}
use sd.Proto.Hash.{Properties, own, set}
use sd.Proto.Hash.Query.{is_unreserved, hex_digit, encode}
use sd.Proto.Hash.Query.Params.{
  one, given, Params, before_mark, query_part, param_step, param_step-new,
}
use sd.Proto.Hash.Query.Codec.{
  Octets, encode_with, encode-with_space, form_encode, form_encode_lem, decode-encode,
  decode-form_encode,
}

-- What has a meaning in a query string, and white space.
unfoldable pub is_mark : ℕ → Bool
is_mark c = eqb c b'&' || eqb c b'=' || eqb c b'?' || eqb c b'#' || is_space c

pub unreserved-mark : (c : ℕ) → is_unreserved c ≡ true → is_mark c ≡ false
unfolding is_mark
unreserved-mark c h = ground arith

pub hex_digit-mark : (d : ℕ) → d < 16 → is_mark (hex_digit d) ≡ false
unfolding is_mark
hex_digit-mark d h = ground arith

pub percent-mark : is_mark b'%' ≡ false
unfolding is_mark
percent-mark = refl

pub none_of-encode_with :
    (space s : Text)
    → none_of is_mark space ≡ true
    → Octets s
    → none_of is_mark (encode_with space s) ≡ true
none_of-encode_with space [] h o = refl
none_of-encode_with space (c ∷ s) h o = elim (Bool-cases (eqb c 32)) [
  | inl t ↦ simp t (none_of-append is_mark space _ h (none_of-encode_with space s h o.1))
  | inr t ↦ elim (Bool-cases (is_unreserved c)) [
    | inl u ↦ simp (t, u, unreserved-mark c u) (none_of-encode_with space s h o.1)
    | inr u ↦
        let n = hex_digit-mark (c / 16) (omega (arith, o.0)) in
        let m = hex_digit-mark (c % 16) (omega arith) in
        simp (t, u, percent-mark, n, m) (none_of-encode_with space s h o.1)
  ]
]

-- What is free of marks is free of each.
pub weaken :
    (p q : ℕ → Bool)
    → ((c : ℕ) → p c ≡ false → q c ≡ false)
    → (s : Text) → none_of p s ≡ true
    → none_of q s ≡ true
weaken p q w [] h = refl
weaken p q w (c ∷ s) h = elim (Bool-cases (p c)) [
  | inl t ↦ absurd (ground arith)
  | inr t ↦ simp (w c t) (weaken p q w s (simp t at h))
]

pub none_of-reverse : (p : ℕ → Bool) (s : Text) → none_of p s ≡ true → none_of p (reverse s) ≡ true
none_of-reverse p [] h = refl
none_of-reverse p (c ∷ s) h = elim (Bool-cases (p c)) [
  | inl t ↦ absurd (ground arith)
  | inr t ↦
      rw reverse-cons
        (none_of-append p (reverse s) (c ∷ []) (none_of-reverse p s (simp t at h)) (simp t))
]

pub clean-encode : (s : Text) → Octets s → none_of is_mark (encode s) ≡ true
unfolding is_mark
clean-encode s h = rw encode-with_space (none_of-encode_with (codes "%20") s refl h)

pub clean-form_encode : (s : Text) → Octets s → none_of is_mark (form_encode s) ≡ true
unfolding is_mark
clean-form_encode s h = rw (form_encode_lem s h) (none_of-encode_with (codes "+") s refl h)

module _ (q : ℕ → Bool) (w : (c : ℕ) → is_mark c ≡ false → q c ≡ false) where
  -- A pair as `toQueryPair` writes it has no mark but its `=`.
  pub none_of-pair :
      (k v : Text)
      → Octets k
      → Octets v
      → q b'=' ≡ false
      → none_of q (encode k ++ b'=' ∷ form_encode v) ≡ true
  none_of-pair k v hk hv e =
      none_of-append q (encode k) _ (weaken is_mark q w _ (clean-encode k hk))
        (simp e (weaken is_mark q w _ (clean-form_encode v hv)))

  pub none_of-join :
      (sep : Text) (ps : List Text)
      → none_of q sep ≡ true
      → All (λ p. none_of q p ≡ true) ps
      → none_of q (join sep ps) ≡ true
  none_of-join sep [] h a = refl
  none_of-join sep (p ∷ []) h a = a.0
  none_of-join sep (p ∷ (r ∷ ps)) h a =
      none_of-append q p _ a.0 (none_of-append q sep _ h (none_of-join sep (r ∷ ps) h a.1))

pub strip-none_of : (s : Text) → none_of is_space s ≡ true → strip s ≡ s
unfolding strip
strip-none_of s h =
    rw (trim_left-none s h, trim_left-none (reverse s) (none_of-reverse is_space s h))
      (reverse-reverse s)

unfoldable pub is_query_mark : ℕ → Bool
is_query_mark c = eqb c b'?' || eqb c b'#'

pub before_mark-none_of : (s : Text) → none_of is_query_mark s ≡ true → before_mark s ≡ (s, [])
unfolding is_query_mark
before_mark-none_of [] h = refl
before_mark-none_of (c ∷ s) h = elim (Bool-cases (is_query_mark c)) [
  | inl t ↦ absurd (ground arith)
  | inr t ↦ simp (t, before_mark-none_of s (simp t at h))
]

pub query_part-none_of : (s : Text) → none_of is_query_mark s ≡ true → query_part s ≡ s
query_part-none_of [] h = refl
query_part-none_of (c ∷ s) h = rw (before_mark-none_of (c ∷ s) h)

pub set-fresh :
    (k : Text) (v : Params) (h : Properties Text Params)
    → own k h ≡ none
    → set k v h ≡ h ++ (k, v) ∷ []
unfolding own set
set-fresh k v [] e = refl
set-fresh k v ((j, w) ∷ h) e = elim (Bool-cases (list_beq j k)) [
  | inl t ↦ absurd (ground arith)
  | inr t ↦ simp (t, set-fresh k v h (simp t at e))
]

pub own-append :
    (j k : Text) (v : Params) (h : Properties Text Params)
    → own j h ≡ none
    → list_beq k j ≡ false
    → own j (h ++ (k, v) ∷ []) ≡ none
unfolding own
own-append j k v [] e n = simp n
own-append j k v ((i, w) ∷ h) e n = elim (Bool-cases (list_beq i j)) [
  | inl t ↦ absurd (ground arith)
  | inr t ↦ simp t (own-append j k v h (simp t at e) n)
]

pub encode-ne-nil : (k : Text) → k ≢ [] → encode k ≢ []
unfolding encode
encode-ne-nil [] ne e = ne refl
encode-ne-nil (c ∷ k) ne e = elim (Bool-cases (is_unreserved c)) [
  | inl t ↦ cc (simp t at e)
  | inr t ↦ cc (simp t at e)
]

-- One pair, of a key that is neither empty nor known.
pub param_step-pair :
    (inherited : Text → Bool) (k v : Text) (h : Properties Text Params)
    → Octets k
    → Octets v
    → k ≢ []
    → own k h ≡ none
    → inherited k ≡ false
    → param_step inherited h (encode k ∷ form_encode v ∷ []) ≡ ok (h ++ (k, one (given v)) ∷ [])
param_step-pair inherited k v h ok_k ok_v ne fresh plain =
    param_step-new inherited h (encode k) (form_encode v) (encode-ne-nil k ne)
      (decode-encode k ok_k) (decode-form_encode v ok_v) fresh plain
    ∙ ap ok (set-fresh k (one (given v)) h fresh)
