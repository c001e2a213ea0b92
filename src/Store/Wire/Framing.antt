-- ===== src/Store/Wire/Framing.antt =====
-- A message that is sent is received.
use sd.Common.{
  eqb, ℕ, zero, suc, ◌+◌, ◌-◌, ◌*◌, ◌/◌, ◌%◌, ◌^◌, ◌<◌, ◌≤◌, ◌≡◌, refl, ap, ◌∙◌, true, false,
  Option, none, some, List, [], ◌∷◌, ◌++◌, length, take, drop, take-append-drop, if◌then◌else◌,
  maybe, Outcome, ok, ◌>>=◌, ltb, leb, if_true, if_false, arith,
}
use sd.Store.Wire.{
  Write, write_interrupted, write_failed, wrote, WriteResult, all_written, no_memory, send_sized,
  write_all, Read, got, WireFault, read_all, put_short, short_size, network_send, receive_sized,
  network_receive,
}

-- The octets that the calls of `write` take until one fails.
abbrev pub capacity : List Write → ℕ
capacity [] = 0
capacity (write_interrupted ∷ ws) = capacity ws
capacity (write_failed ∷ ws) = 0
capacity (wrote n ∷ ws) = n + capacity ws

length-drop : (n : ℕ) (xs : List ℕ) → length (drop n xs) ≡ length xs - n
length-drop zero xs = omega arith
length-drop (suc n) [] = omega arith
length-drop (suc n) (x ∷ xs) = omega (arith, length-drop n xs)

-- `write_all` ends well when the calls take as many octets as there are before one fails, however
-- they cut them, and interrupted or not; and then all octets are on the wire, in their order.
pub write_all_lem :
    (ws : List Write) (buf : List ℕ)
    → length buf ≤ capacity ws
    → write_all ws buf ≡ (buf, all_written)
unfolding write_all
write_all_lem [] [] h = refl
write_all_lem (w ∷ ws) [] h = refl
write_all_lem [] (c ∷ buf) h = absurd (omega arith)
write_all_lem (write_interrupted ∷ ws) (c ∷ buf) h = write_all_lem ws (c ∷ buf) h
write_all_lem (write_failed ∷ ws) (c ∷ buf) h = absurd (omega arith)
write_all_lem (wrote n ∷ ws) (c ∷ buf) h =
    let rest = write_all_lem ws (drop n (c ∷ buf)) (omega (arith, length-drop n (c ∷ buf))) in
    ap (λ (p : List ℕ × WriteResult). (take n (c ∷ buf) ++ p.0, p.1)) rest
    ∙ ap (λ (b : List ℕ). (b, all_written)) (take-append-drop n (c ∷ buf))

take_all : (xs ys : List ℕ) → take (length xs) (xs ++ ys) ≡ xs
take_all [] ys = refl
take_all (x ∷ xs) ys = ap (x ∷◌) (take_all xs ys)

drop_all : (xs ys : List ℕ) → drop (length xs) (xs ++ ys) ≡ ys
drop_all [] ys = refl
drop_all (x ∷ xs) ys = drop_all xs ys

pub take_whole : (xs : List ℕ) → take (length xs) xs ≡ xs
take_whole [] = refl
take_whole (x ∷ xs) = ap (x ∷◌) (take_whole xs)

drop_whole : (xs : List ℕ) → drop (length xs) xs ≡ []
drop_whole [] = refl
drop_whole (x ∷ xs) = drop_whole xs

take_short : (m : ℕ) (xs ys : List ℕ) → m ≤ length xs → take m (xs ++ ys) ≡ take m xs
take_short zero xs ys h = refl
take_short (suc m) [] ys h = absurd (omega arith)
take_short (suc m) (x ∷ xs) ys h = ap (x ∷◌) (take_short m xs ys (omega arith))

drop_short : (m : ℕ) (xs ys : List ℕ) → m ≤ length xs → drop m (xs ++ ys) ≡ drop m xs ++ ys
drop_short zero xs ys h = refl
drop_short (suc m) [] ys h = absurd (omega arith)
drop_short (suc m) (x ∷ xs) ys h = drop_short m xs ys (omega arith)

length-take : (m : ℕ) (xs : List ℕ) → m ≤ length xs → length (take m xs) ≡ m
length-take zero xs h = refl
length-take (suc m) [] h = absurd (omega arith)
length-take (suc m) (x ∷ xs) h = ap suc (length-take m xs (omega arith))

pub short_size_lem : (n : ℕ) → n < 2 ^ 15 → short_size n ≡ some n
short_size_lem n h =
    let e : n % 2 ^ 16 ≡ n = omega arith in
    let t : ltb n (2 ^ 15) ≡ true = ground arith in rw e (if_true _ _ t)

pub short_value : (n : ℕ) → n < 2 ^ 15 → n / 2 ^ 8 % 256 * 256 + n % 256 ≡ n
short_value n h = omega arith

module _ {Message : Type 0} (pack : Message → List ℕ) (unpack : List ℕ → Option Message) where
  -- What is sent of a message that fits.
  pub network_send_lem :
      (ws : List Write) (msg : Message)
      → length (pack msg) < 2 ^ 15
      → length (pack msg) ≤ capacity ws
      → network_send pack unpack ws msg ≡ (put_short (length (pack msg)) ++ pack msg, all_written)
  unfolding network_send
  network_send_lem ws msg b h =
      let size = put_short (length (pack msg)) in
      let fits : eqb (length (pack msg)) (length (pack msg)) ≡ true = ground arith in
      ap (λ (o : Option ℕ). let sent = send_sized ws (pack msg) o in (size ++ sent.0, sent.1))
        (short_size_lem (length (pack msg)) b)
      ∙ ap (λ (p : List ℕ × WriteResult). (size ++ p.0, p.1))
          (if_true _ _ fits ∙ write_all_lem ws (pack msg) h)

  abbrev received : Option Message → List ℕ → Outcome WireFault (Option Message × List ℕ)
  received o stream = ok (o, stream)

  -- What `network_receive` does with a message that fits, when the call of `read` gives `k` octets.
  receive_cut :
      (m k : ℕ) (msg : Message) (stream : List ℕ)
      → length (pack msg) < 2 ^ 15
      → (if leb m (length (pack msg)) then m else length (pack msg)) ≡ k
      → k ≤ length (pack msg)
      → 0 < k
      → network_receive pack unpack (got m) (put_short (length (pack msg)) ++ (pack msg ++ stream))
        ≡ ok (unpack (take k (pack msg)), drop k (pack msg) ++ stream)
  unfolding network_receive
  receive_cut m k msg stream b q le pos =
      let buf = pack msg in
      let size = length buf in
      let some_octets : ltb 0 (length (take k buf)) ≡ true = ground (arith, length-take k buf le) in
      let finish : ℕ → Outcome WireFault (Option Message × List ℕ) = λ n.
        read_all (got m) n (buf ++ stream) >>= λ o.
        maybe o (ok (none, buf ++ stream))
          λ p. ok ((if ltb 0 (length p.0) then unpack p.0 else none), p.1) in
      ap (λ (n : ℕ). maybe (short_size n) (ok (none, buf ++ stream)) finish) (short_value size b)
      ∙ ap (λ (o : Option ℕ). maybe o (ok (none, buf ++ stream)) finish) (short_size_lem size b)
      ∙ ap
          (λ (k : ℕ).
            received
              (if ltb 0 (length (take k (buf ++ stream)))
                then unpack (take k (buf ++ stream))
                else none)
              (drop k (buf ++ stream)))
          q
      ∙ ap (λ (p : List ℕ × List ℕ). received (if ltb 0 (length p.0) then unpack p.0 else none) p.1)
          (λ i. (take_short k buf stream le i, drop_short k buf stream le i))
      ∙ ap (λ (o : Option Message). received o (drop k buf ++ stream)) (if_true _ _ some_octets)

  -- A message of at most 32767 octets, but not of none, is received as it was sent, and what follows
  -- it in the stream stays there, when the calls of `write` take it all, in whatever pieces, and the
  -- one call of `read` gives it all. What is unpacked is what was packed.
  pub network_receive-network_send :
      (ws : List Write) (m : ℕ) (msg : Message) (stream : List ℕ)
      → length (pack msg) < 2 ^ 15
      → 0 < length (pack msg)
      → length (pack msg) ≤ capacity ws
      → length (pack msg) ≤ m
      → unpack (pack msg) ≡ some msg
      → network_receive pack unpack (got m) ((network_send pack unpack ws msg).0 ++ stream)
        ≡ ok (some msg, stream)
  network_receive-network_send ws m msg stream b pos h full u =
      let buf = pack msg in
      let size = length buf in
      let k : (if leb m size then m else size) ≡ size = ground arith in
      ap (λ (p : List ℕ × WriteResult). network_receive pack unpack (got m) (p.0 ++ stream))
        (network_send_lem ws msg b h)
      ∙ receive_cut m size msg stream b k (omega arith) pos
      ∙ ap (λ (p : List ℕ × List ℕ). received (unpack p.0) (p.1 ++ stream))
          (λ i. (take_whole buf i, drop_whole buf i))
      ∙ ap (λ (o : Option Message). received o stream) u

  -- When the call of `read` gives fewer octets than the message has, `read_all` stops there: what is
  -- unpacked is the message's beginning, and the rest of it stays in the stream, before what follows.
  pub network_receive-cut :
      (ws : List Write) (m : ℕ) (msg : Message) (stream : List ℕ)
      → length (pack msg) < 2 ^ 15
      → length (pack msg) ≤ capacity ws
      → 0 < m
      → m < length (pack msg)
      → network_receive pack unpack (got m) ((network_send pack unpack ws msg).0 ++ stream)
        ≡ ok (unpack (take m (pack msg)), drop m (pack msg) ++ stream)
  network_receive-cut ws m msg stream b h pos short =
      let size = length (pack msg) in
      let k : (if leb m size then m else size) ≡ m = ground arith in
      ap (λ (p : List ℕ × WriteResult). network_receive pack unpack (got m) (p.0 ++ stream))
        (network_send_lem ws msg b h)
      ∙ receive_cut m m msg stream b k (omega arith) pos

  -- Of a message of 32768 to 65535 octets only the size is sent, and it is received as the end of the
  -- connection.
  pub network_send-too_long :
      (ws : List Write) (r : Read) (msg : Message) (stream : List ℕ)
      → 2 ^ 15 ≤ length (pack msg)
      → length (pack msg) < 2 ^ 16
      → (network_send pack unpack ws msg ≡ (put_short (length (pack msg)), no_memory))
        × (network_receive pack unpack r (put_short (length (pack msg)) ++ stream)
            ≡ ok (none, stream))
  unfolding network_send network_receive
  network_send-too_long ws r msg stream lo hi =
      let size = length (pack msg) in
      let e : size % 2 ^ 16 ≡ size = omega arith in
      let v : size / 2 ^ 8 % 256 * 256 + size % 256 ≡ size = omega arith in
      let f : ltb size (2 ^ 15) ≡ false = ground arith in
      let z : short_size size ≡ none = rw e (if_false _ _ f) in
      (
        ap
            (λ (o : Option ℕ).
              let sent = send_sized ws (pack msg) o in (put_short size ++ sent.0, sent.1))
            z,
        ap (λ (n : ℕ). receive_sized pack unpack r n stream) v
            ∙ ap
                (λ (o : Option ℕ). maybe o (ok (none, stream)) λ n. read_all r n stream >>= λ o.
                  maybe o (ok (none, stream))
                    λ p. ok ((if ltb 0 (length p.0) then unpack p.0 else none), p.1))
                z,
      )
