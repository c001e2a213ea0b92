-- ===== src/Store/Wire/Keys.antt =====
-- The keys of a buffer are those that were put into it.
use sd.Common.{
  ℕ, suc, ◌+◌, ◌*◌, ◌/◌, ◌%◌, ◌^◌, ◌<◌, ◌≤◌, ◌≡◌, refl, ap, ◌∙◌, false, List, [], ◌∷◌, ◌++◌, All,
  length, length-append, ok, eqb, arith,
}
use sd.Store.Keys.{Key}
use sd.Store.Wire.{
  count_keys, copy_keys, key_array_to_buffer, strdup, read_keys, buffer_to_key_array,
}

-- A key as a string of C: no character is NUL.
abbrev pub NoNul : Key → Type 0
NoNul = All (λ c. 0 < c)

count_keys_lem :
    (ks : List Key) (nkeys size : ℕ)
    → nkeys + length ks < 2 ^ 32
    → size + length (copy_keys ks) < 2 ^ 32
    → count_keys ks nkeys size ≡ (nkeys + length ks, size + length (copy_keys ks))
unfolding count_keys copy_keys
count_keys_lem [] nkeys size b c = λ i. (first i, second i)
  where
    first : nkeys ≡ nkeys + 0
    first = omega arith

    second : size ≡ size + 0
    second = omega arith
count_keys_lem (k ∷ ks) nkeys size b c =
    let n : (nkeys + 1) % 2 ^ 32 ≡ nkeys + 1 = omega arith in
    let total = length-append k (0 ∷ copy_keys ks) in
    let m : (size + length k + 1) % 2 ^ 32 ≡ size + length k + 1 = omega (arith, total, c) in
    ap (λ (p : ℕ × ℕ). count_keys ks p.0 p.1) (λ i. (n i, m i))
    ∙ count_keys_lem ks (nkeys + 1) (size + length k + 1) (omega (arith, b))
        (omega (arith, total, c))
    ∙ λ i. (first i, second i)
  where
    first : nkeys + 1 + length ks ≡ nkeys + suc (length ks)
    first = omega arith

    second : size + length k + 1 + length (copy_keys ks) ≡ size + length (k ++ (0 ∷ copy_keys ks))
    second = omega (arith, length-append k (0 ∷ copy_keys ks))

strdup_lem : (k : Key) (rest : List ℕ) → NoNul k → strdup (k ++ (0 ∷ rest)) ≡ ok (k, rest)
strdup_lem [] rest h = refl
strdup_lem (c ∷ k) rest h =
    let z : eqb c 0 ≡ false = ground (arith, h.0) in simp (z, strdup_lem k rest h.1)

read_keys_lem : (ks : List Key) → All NoNul ks → read_keys (length ks) (copy_keys ks) ≡ ok ks
unfolding read_keys copy_keys
read_keys_lem [] h = refl
read_keys_lem (k ∷ ks) h = simp (strdup_lem k (copy_keys ks) h.0, read_keys_lem ks h.1)

-- Each key has its NUL, so there are no more keys than octets.
number_of_keys : (ks : List Key) → length ks ≤ length (copy_keys ks)
unfolding copy_keys
number_of_keys [] = omega arith
number_of_keys (k ∷ ks) = omega (arith, length-append k (0 ∷ copy_keys ks), number_of_keys ks)

int_value :
    (n : ℕ)
    → n < 2 ^ 31
    → n / 2 ^ 24 % 256 * 2 ^ 24 + n / 2 ^ 16 % 256 * 2 ^ 16 + n / 2 ^ 8 % 256 * 2 ^ 8 + n % 256 ≡ n
int_value n h = omega arith

-- `keyArray_to_buffer` allocates as many octets as it writes, and `buffer_to_keyArray` reads the same
-- keys back out of them, without leaving the buffer. The keys hold no NUL, and the octets of all keys
-- with their NULs, and of the number of keys, are so few that an `int` counts them.
pub buffer_to_key_array-key_array_to_buffer :
    (keys : List Key)
    → All NoNul keys
    → 4 + length (copy_keys keys) < 2 ^ 31
    → ((key_array_to_buffer keys).0 ≡ length (key_array_to_buffer keys).1)
      × (buffer_to_key_array (key_array_to_buffer keys).1 ≡ ok keys)
unfolding key_array_to_buffer buffer_to_key_array
buffer_to_key_array-key_array_to_buffer keys h b =
    let few = number_of_keys keys in
    let c = count_keys_lem keys 0 4 (omega (arith, few, b)) (omega (arith, b)) in
    let n : (count_keys keys 0 4).0 ≡ length keys = ap (λ p. p.0) c ∙ omega arith in
    (
      ap (λ p. p.1) c ∙ omega arith,
      ap
            (λ n.
              read_keys
                (n / 2 ^ 24 % 256 * 2 ^ 24
                  + n / 2 ^ 16 % 256 * 2 ^ 16
                  + n / 2 ^ 8 % 256 * 2 ^ 8
                  + n % 256)
                (copy_keys keys))
            n
          ∙ ap (λ n. read_keys n (copy_keys keys)) (int_value (length keys) (omega (arith, few, b)))
          ∙ read_keys_lem keys h,
    )
