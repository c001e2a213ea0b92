-- ===== src/Proto/Storage.antt =====
-- `Element.Storage` of docs/skin/prototype.js: data stored with elements, in browsers without
-- `uniqueID`. An element is its `_prototypeUID`, which is missing at first; the window has the ID 0.
-- The search of an element by `$` is not here, what an object inherits has none of the names, and
-- values and defaults are not `undefined`.
use sd.Common.{
  ℕ, ◌+◌, ◌≡◌, ap, sym, ◌∙◌, some, [], maybe, Eq, text_eq, nat_eq, inl, inr, Option-cases, if_true,
  beq_refl,
}
use sd.Proto.Text.{Text}
use sd.Proto.Hash.{Properties, own, set, update}
use sd.Proto.Hash.Laws.{own-set}

-- The window, or an element, by its place among the page's elements.
pub data Target : Type 0 where
  window : Target
  node : ℕ → Target

-- `uids` are the elements' `_prototypeUID`, `next` is `Element.Storage.UID`, and `hashes` are the
-- properties of `Element.Storage` that are hashes.
pub record Storage (V : Type 0) : Type 0 where
  pub uids : Properties ℕ ℕ
  pub next : ℕ
  pub hashes : Properties ℕ (Properties Text V)

own-same {ℓ κ} :
    {K : Type ℓ} {A : Type κ} ⦃e : Eq K⦄ (k : K) (v : A) (h : Properties K A)
    → own k (set k v h) ≡ some v
own-same k v h = own-set k k v h ∙ if_true _ _ (beq_refl k)

module _ {V : Type 0} where
  -- `getUniqueElementID`.
  unfoldable pub get_unique_element_id : Target → Storage V → Storage V × ℕ
  get_unique_element_id window s = (s, 0)
  get_unique_element_id (node e) s =
      maybe (own e s.uids) (record s { uids = set e s.next s.uids; next = s.next + 1 }, s.next)
        (λ uid. (s, uid))

  -- `getStorage`: the hash, which is made if there is none, and the ID it stands under.
  unfoldable pub get_storage : Target → Storage V → Storage V × ℕ × Properties Text V
  unfolding get_unique_element_id
  get_storage t s =
      let (s', uid) = get_unique_element_id t s in
      maybe (own uid s'.hashes) (record s' { hashes = set uid [] s'.hashes }, uid, [])
        (λ h. (s', uid, h))

  -- The state with another hash in the place of the one that was got.
  abbrev pub put_hash : Storage V × ℕ × Properties Text V → Properties Text V → Storage V
  put_hash (s, uid, h) g = record s { hashes = set uid g s.hashes }

  -- `store` with a key and a value.
  unfoldable pub store : Target → Text → V → Storage V → Storage V
  unfolding get_storage
  store t key v s = let got = get_storage t s in put_hash got (set key v got.2)

  -- `store` with an object.
  unfoldable pub store_all : Target → Properties Text V → Storage V → Storage V
  unfolding get_storage
  store_all t object s = let got = get_storage t s in put_hash got (update got.2 object)

  -- `retrieve`: a missing value becomes the default.
  unfoldable pub retrieve : Target → Text → V → Storage V → Storage V × V
  unfolding get_storage
  retrieve t key default s =
      let got = get_storage t s in
      maybe (own key got.2) (put_hash got (set key default got.2), default) (λ v. (got.0, v))

  -- A hash that is put in place of the one that `getStorage` gives is what it gives next.
  get_storage-set :
      (t : Target) (s : Storage V) (g : Properties Text V)
      → get_storage t (put_hash (get_storage t s) g)
        ≡ (put_hash (get_storage t s) g, (get_storage t s).1, g)
  unfolding get_storage get_unique_element_id
  get_storage-set window s g = elim (Option-cases (own 0 s.hashes)) [
    | inl q ↦ simp (q, own-same)
    | inr (h, q) ↦ simp (q, own-same)
  ]
  get_storage-set (node e) s g = elim (Option-cases (own e s.uids)) [
    | inl u ↦ elim (Option-cases (own s.next s.hashes)) [
      | inl q ↦ simp (u, q, own-same)
      | inr (h, q) ↦ simp (u, q, own-same)
    ]
    | inr (uid, u) ↦ elim (Option-cases (own uid s.hashes)) [
      | inl q ↦ simp (u, q, own-same)
      | inr (h, q) ↦ simp (u, q, own-same)
    ]
  ]

  get_storage-again :
      (t : Target) (s : Storage V) → get_storage t (get_storage t s).0 ≡ get_storage t s
  unfolding get_storage get_unique_element_id
  get_storage-again window s = elim (Option-cases (own 0 s.hashes)) [
    | inl q ↦ simp (q, own-same)
    | inr (h, q) ↦ simp q
  ]
  get_storage-again (node e) s = elim (Option-cases (own e s.uids)) [
    | inl u ↦ elim (Option-cases (own s.next s.hashes)) [
      | inl q ↦ simp (u, q, own-same)
      | inr (h, q) ↦ simp (u, q, own-same)
    ]
    | inr (uid, u) ↦ elim (Option-cases (own uid s.hashes)) [
      | inl q ↦ simp (u, q, own-same)
      | inr (h, q) ↦ simp (u, q)
    ]
  ]

  retrieve-got :
      (t : Target) (key : Text) (default v : V) (s : Storage V) (uid : ℕ) (g : Properties Text V)
      → get_storage t s ≡ (s, uid, g)
      → own key g ≡ some v
      → retrieve t key default s ≡ (s, v)
  unfolding retrieve
  retrieve-got t key default v s uid g e q =
      ap
        (λ got.
          maybe (own key got.2) (put_hash got (set key default got.2), default) (λ v. (got.0, v)))
        e
      ∙ ap (λ o. maybe o (put_hash (s, uid, g) (set key default g), default) (λ v. (s, v))) q

  -- What is stored with an element or the window is retrieved, whatever the default, and that changes
  -- nothing.
  pub retrieve-store :
      (t : Target) (key : Text) (v default : V) (s : Storage V)
      → retrieve t key default (store t key v s) ≡ (store t key v s, v)
  unfolding store
  retrieve-store t key v default s =
      let g = set key v (get_storage t s).2 in
      retrieve-got t key default v (put_hash (get_storage t s) g) (get_storage t s).1 g
        (get_storage-set t s g) (own-same key v (get_storage t s).2)

  again :
      (t : Target) (key : Text) (second w : V) (s r : Storage V) (uid : ℕ) (g : Properties Text V)
      (first : Storage V × V)
      → first ≡ (r, w)
      → get_storage t r ≡ (r, uid, g)
      → own key g ≡ some w
      → retrieve t key second first.0 ≡ first
  again t key second w s r uid g first e got q =
      ap (λ x. retrieve t key second x.0) e ∙ retrieve-got t key second w r uid g got q ∙ sym e

  -- A second `retrieve` gives what the first one gave, which may be its default, and changes
  -- nothing.
  pub retrieve-retrieve :
      (t : Target) (key : Text) (first second : V) (s : Storage V)
      → retrieve t key second (retrieve t key first s).0 ≡ retrieve t key first s
  retrieve-retrieve t key first second s =
      let got = get_storage t s in
      elim (Option-cases (own key got.2)) [
        | inl q ↦
            let g = set key first got.2 in
            again t key second first s (put_hash got g) got.1 g (retrieve t key first s)
              (unfold retrieve in ap (λ o. maybe o (put_hash got g, first) (λ v. (got.0, v))) q)
              (get_storage-set t s g) (own-same key first got.2)
        | inr (w, q) ↦
            again t key second w s got.0 got.1 got.2 (retrieve t key first s)
              (unfold retrieve in
                ap (λ o. maybe o (put_hash got (set key first got.2), first) (λ v. (got.0, v))) q)
              (get_storage-again t s) q
      ]
