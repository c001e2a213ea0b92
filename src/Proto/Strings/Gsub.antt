-- ===== src/Proto/Strings/Gsub.antt =====
-- The loop of `gsub`.
use sd.Common.{
  ℕ, zero, suc, ◌+◌, ◌≤◌, ◌<◌, ◌≡◌, refl, ap, sym, ◌∙◌, true, some, [], ◌∷◌, ◌++◌, inl, inr, arith,
  ltb, length, take, drop, length-drop, Bool-cases, Option-cases, append-nil, append_assoc,
}
use sd.Proto.Text.{Text}
use sd.Proto.Strings.{Match, Pattern, Replacement, gsub_loop, gsub}

-- A match stands in the source where its index says.
abbrev pub Locates : {G : Type 0} → Pattern G → Type 0
Locates {G} pattern =
    (s : Text) (m : Match G)
    → pattern s ≡ some m
    → (i : ℕ) × (m.index ≡ some i) × (take i s ++ (m.text ++ drop (i + length m.text) s) ≡ s)

-- A pattern without the flag `g`: each match has an index.
abbrev pub Indexed : {G : Type 0} → Pattern G → Type 0
Indexed {G} pattern = (s : Text) (m : Match G) → pattern s ≡ some m → (i : ℕ) × (m.index ≡ some i)

shorter :
    (f : ℕ) (source : Text) (i n : ℕ)
    → length source ≤ suc f
    → 0 < n
    → length (drop (i + n) source) ≤ f
shorter f source i n h p = omega (arith, length-drop (i + n) source)

module _ {S G : Type 0} (pattern : Pattern G) (indexed : Indexed pattern)
    (replacement : Replacement S G) where
  gsub_loop-ends :
      (f : ℕ) (s : S) (source result : Text)
      → length source ≤ f
      → (gsub_loop pattern replacement f s source result).2 ≡ []
  unfolding gsub_loop
  gsub_loop-ends zero s [] result h = refl
  gsub_loop-ends zero s (c ∷ source) result h = absurd (omega arith)
  gsub_loop-ends (suc f) s [] result h = refl
  gsub_loop-ends (suc f) s (c ∷ source) result h = elim (Option-cases (pattern (c ∷ source))) [
    | inl e ↦ simp e
    | inr (m, e) ↦ elim (Bool-cases (ltb 0 (length m.text))) [
      | inl t ↦
          let (i, q) = indexed (c ∷ source) m e in
          simp (e, q, t)
            (gsub_loop-ends f _ _ _ (shorter f (c ∷ source) i (length m.text) h (ground arith)))
      | inr t ↦ simp (e, t)
    ]
  ]

  -- For a pattern without the flag `g`, whose matches have an index, as many rounds as the source is
  -- long are enough for the loop to end by its test: no source is left.
  pub gsub_ends :
      (s : S) (source : Text) → (gsub_loop pattern replacement (length source) s source []).2 ≡ []
  gsub_ends s source = gsub_loop-ends (length source) s source [] (omega arith)

module _ {S G : Type 0} (pattern : Pattern G) (indexed : Indexed pattern)
    (replacement : Replacement S G) where
  -- What is in front of the source stays there.
  gsub_loop-result :
      (f : ℕ) (s : S) (source result : Text)
      → length source ≤ f
      → (gsub_loop pattern replacement f s source result).1
        ≡ result ++ (gsub_loop pattern replacement f s source []).1
  unfolding gsub_loop
  gsub_loop-result zero s source result h = sym (append-nil result)
  gsub_loop-result (suc f) s [] result h = sym (append-nil result)
  gsub_loop-result (suc f) s (c ∷ source) result h = elim (Option-cases (pattern (c ∷ source))) [
    | inl e ↦ simp e refl
    | inr (m, e) ↦ elim (Bool-cases (ltb 0 (length m.text))) [
      | inl t ↦
          let (i, q) = indexed (c ∷ source) m e in
          let later = drop (i + length m.text) (c ∷ source) in
          let r = replacement s m in
          let added = take i (c ∷ source) ++ r.1 in
          let l = shorter f (c ∷ source) i (length m.text) h (ground arith) in
          simp (e, q, t)
            (gsub_loop-result f r.0 later (result ++ added) l
              ∙ append_assoc result added (gsub_loop pattern replacement f r.0 later []).1
              ∙ ap (result ++◌) (sym (gsub_loop-result f r.0 later added l)))
      | inr t ↦ simp (e, t) refl
    ]
  ]

  -- More fuel than the source is long changes nothing.
  gsub_loop-fuel :
      (f g : ℕ) (s : S) (source result : Text)
      → length source ≤ f
      → length source ≤ g
      → gsub_loop pattern replacement f s source result
        ≡ gsub_loop pattern replacement g s source result
  unfolding gsub_loop
  gsub_loop-fuel zero zero s [] result h k = refl
  gsub_loop-fuel zero (suc g) s [] result h k = refl
  gsub_loop-fuel (suc f) zero s [] result h k = refl
  gsub_loop-fuel (suc f) (suc g) s [] result h k = refl
  gsub_loop-fuel zero g s (c ∷ source) result h k = absurd (omega arith)
  gsub_loop-fuel (suc f) zero s (c ∷ source) result h k = absurd (omega arith)
  gsub_loop-fuel (suc f) (suc g) s (c ∷ source) result h k =
      elim (Option-cases (pattern (c ∷ source))) [
        | inl e ↦ simp e refl
        | inr (m, e) ↦ elim (Bool-cases (ltb 0 (length m.text))) [
          | inl t ↦
              let (i, q) = indexed (c ∷ source) m e in
              simp (e, q, t)
                (gsub_loop-fuel f g (replacement s m).0 (drop (i + length m.text) (c ∷ source))
                  (result ++ (take i (c ∷ source) ++ (replacement s m).1))
                  (shorter f (c ∷ source) i (length m.text) h (ground arith))
                  (shorter g (c ∷ source) i (length m.text) k (ground arith)))
          | inr t ↦ simp (e, t) refl
        ]
      ]

  -- The first match is replaced, and the rest of the source is done in the same way.
  pub gsub-match :
      (s : S) (source : Text) (m : Match G) (i : ℕ)
      → pattern source ≡ some m
      → m.index ≡ some i
      → 0 < length m.text
      → 0 < length source
      → (gsub pattern replacement s source).1
        ≡ take i source
          ++ ((replacement s m).1
              ++ (gsub pattern replacement (replacement s m).0 (drop (i + length m.text) source)).1)
  unfolding gsub gsub_loop
  gsub-match s [] m i e q p h = absurd (omega arith)
  gsub-match s (c ∷ source) m i e q p h =
      let t : ltb 0 (length m.text) ≡ true = ground arith in
      let later = drop (i + length m.text) (c ∷ source) in
      let r = replacement s m in
      let added = take i (c ∷ source) ++ r.1 in
      let l = shorter (length source) (c ∷ source) i (length m.text) (omega arith) p in
      simp (e, q, t)
        (gsub_loop-result (length source) r.0 later added l
          ∙ ap (λ (x : S × Text × Text). added ++ x.1)
              (gsub_loop-fuel (length source) (length later) r.0 later [] l (omega arith))
          ∙ append_assoc (take i (c ∷ source)) r.1
              (gsub_loop pattern replacement (length later) r.0 later []).1)

module _ {S G : Type 0} (pattern : Pattern G) (locates : Locates pattern)
    (replacement : Replacement S G)
    (echoes : (s : S) (m : Match G) → (replacement s m).1 ≡ m.text) where
  gsub_loop-echo :
      (f : ℕ) (s : S) (source result : Text)
      → length source ≤ f
      → (gsub_loop pattern replacement f s source result).1 ≡ result ++ source
  unfolding gsub_loop
  gsub_loop-echo zero s [] result h = sym (append-nil result)
  gsub_loop-echo zero s (c ∷ source) result h = absurd (omega arith)
  gsub_loop-echo (suc f) s [] result h = sym (append-nil result)
  gsub_loop-echo (suc f) s (c ∷ source) result h = elim (Option-cases (pattern (c ∷ source))) [
    | inl e ↦ simp e
    | inr (m, e) ↦ elim (Bool-cases (ltb 0 (length m.text))) [
      | inl t ↦
          let (i, q, l) = locates (c ∷ source) m e in
          simp (e, q, t)
            (gsub_loop-echo f _ _ _ (shorter f (c ∷ source) i (length m.text) h (ground arith))
              ∙ rw (append_assoc, append_assoc, echoes s m, l))
      | inr t ↦ simp (e, t)
    ]
  ]

  -- A replacement that gives each match back leaves the text as it is, whatever the pattern finds,
  -- if each match stands in the text at its index.
  pub gsub-echo : (s : S) (source : Text) → (gsub pattern replacement s source).1 ≡ source
  unfolding gsub
  gsub-echo s source = gsub_loop-echo (length source) s source [] (omega arith)
