-- ===== src/Store/Wire.antt =====
-- How messages cross a connection: source/serialization.c, source/message-private.c, and the sending
-- and receiving of source/network_server.c. The calls of the operating system are lists of what they
-- give; the packing of messages is an argument.
pub mod Keys
pub mod Framing
pub mod Exchange
pub mod Delivered
use sd.Common.{
  ℕ, zero, suc, ◌+◌, ◌-◌, ◌*◌, ◌/◌, ◌%◌, ◌^◌, Bool, true, false, Option, none, some, List, [], ◌∷◌,
  ◌++◌, length, if◌then◌else◌, maybe, Outcome, ok, err, ◌>>=◌, eqb, ltb, leb, take, drop,
}
use sd.Store.Keys.{Key}

-- `htonl` and the copy of an `int` of 32 bits: four octets, the first one highest.
abbrev pub put_int : ℕ → List ℕ
put_int n = (n / 2 ^ 24 % 256) ∷ (n / 2 ^ 16 % 256) ∷ (n / 2 ^ 8 % 256) ∷ (n % 256) ∷ []

-- The loop that counts the keys and the octets, each in an `int` of 32 bits, here without its sign.
pub count_keys : List Key → ℕ → ℕ → ℕ × ℕ
count_keys [] nkeys size = (nkeys, size)
count_keys (k ∷ ks) nkeys size =
    count_keys ks ((nkeys + 1) % 2 ^ 32) ((size + length k + 1) % 2 ^ 32)

-- The loop of `strcpy`: each key with its NUL.
unfoldable pub copy_keys : List Key → List ℕ
copy_keys [] = []
copy_keys (k ∷ ks) = k ++ (0 ∷ copy_keys ks)

-- `keyArray_to_buffer`, with memory: the size that is allocated, and the octets that are written.
unfoldable pub key_array_to_buffer : List Key → ℕ × List ℕ
unfolding count_keys copy_keys
key_array_to_buffer keys =
    let (nkeys, size) = count_keys keys 0 4 in (size, put_int nkeys ++ copy_keys keys)

-- What goes wrong with a buffer that is not of this form.
pub data WireFault : Type 0 where
  past_the_end : WireFault
  uninitialised : WireFault

-- `strdup`: the octets up to a NUL, and what follows it.
abbrev pub strdup : List ℕ → Outcome WireFault (Key × List ℕ)
strdup [] = err past_the_end
strdup (c ∷ buf) =
    let rest = strdup buf in if eqb c 0 then ok ([], buf) else rest >>= λ r. ok (c ∷ r.0, r.1)

-- The loop over the keys of a buffer, with so many left.
pub read_keys : ℕ → List ℕ → Outcome WireFault (List Key)
read_keys zero buf = ok []
read_keys (suc n) buf = strdup buf >>= λ r. read_keys n r.1 >>= λ ks. ok (r.0 ∷ ks)

-- `buffer_to_keyArray`, with memory, for a number of keys that is not negative.
unfoldable pub buffer_to_key_array : List ℕ → Outcome WireFault (List Key)
unfolding read_keys
buffer_to_key_array (a ∷ (b ∷ (c ∷ (d ∷ buf)))) =
    read_keys (a * 2 ^ 24 + b * 2 ^ 16 + c * 2 ^ 8 + d) buf
buffer_to_key_array buf = err past_the_end

-- What a call of `write` gives: it is interrupted, it fails, or it takes so many octets, or all if
-- there are fewer.
pub data Write : Type 0 where
  write_interrupted write_failed : Write
  wrote : ℕ → Write

-- What `write_all` gives: the whole size, the error of a call, or that it still waits. For
-- `network_send` also that `malloc` has no memory, or that the message is packed past the buffer.
pub data WriteResult : Type 0 where
  all_written write_error waiting no_memory overrun : WriteResult

-- `write_all`: the octets that the calls took, and the result.
unfoldable pub write_all : List Write → List ℕ → List ℕ × WriteResult
write_all ws [] = ([], all_written)
write_all [] (c ∷ buf) = ([], waiting)
write_all (write_interrupted ∷ ws) (c ∷ buf) = write_all ws (c ∷ buf)
write_all (write_failed ∷ ws) (c ∷ buf) = ([], write_error)
write_all (wrote n ∷ ws) (c ∷ buf) =
    let rest = write_all ws (drop n (c ∷ buf)) in (take n (c ∷ buf) ++ rest.0, rest.1)

-- What a call of `read` gives: it is interrupted, it fails, or it gives so many octets, or fewer if
-- the connection or the request has fewer.
pub data Read : Type 0 where
  read_interrupted read_failed : Read
  got : ℕ → Read

-- `read_all`: an interrupted first call tests `fullBuffer`, which is not set then; a call that fills
-- the buffer ends the loop by its return, and one that does not ends it by its test.
abbrev pub read_all : Read → ℕ → List ℕ → Outcome WireFault (Option (List ℕ × List ℕ))
read_all read_interrupted n stream = err uninitialised
read_all read_failed n stream = ok none
read_all (got m) n stream =
    let k = if leb m n then m else n in ok (some (take k stream, drop k stream))

-- `htons` and the cast to a `short`: two octets.
abbrev pub put_short : ℕ → List ℕ
put_short n = (n / 2 ^ 8 % 256) ∷ (n % 256) ∷ []

-- The size that a `short` has: `none` for a negative one.
abbrev pub short_size : ℕ → Option ℕ
short_size n = if ltb (n % 2 ^ 16) (2 ^ 15) then some (n % 2 ^ 16) else none

-- What `network_send` does after the size: there is no memory for a negative size, and a buffer of
-- another size than the message's is not enough for it.
abbrev pub send_sized : List Write → List ℕ → Option ℕ → List ℕ × WriteResult
send_sized ws buffer none = ([], no_memory)
send_sized ws buffer (some n) = if eqb n (length buffer) then write_all ws buffer else ([], overrun)

module _ {Message : Type 0} (pack : Message → List ℕ) (unpack : List ℕ → Option Message) where
  -- `network_send`, where the two octets of the size are taken by one call. The client's
  -- `network_send_receive` sends the same octets of a message that fits a `short`.
  unfoldable pub network_send : List Write → Message → List ℕ × WriteResult
  unfolding write_all
  network_send ws msg =
      let buffer = pack msg in
      let sent = send_sized ws buffer (short_size (length buffer)) in
      (put_short (length buffer) ++ sent.0, sent.1)

  -- The octets of a message of a size that fits a `short`; no memory is found for a negative one.
  abbrev pub receive_sized : Read → ℕ → List ℕ → Outcome WireFault (Option Message × List ℕ)
  receive_sized r size stream = maybe (short_size size) (ok (none, stream)) λ n.
      read_all r n stream >>= λ o.
      maybe o (ok (none, stream)) λ p. ok ((if ltb 0 (length p.0) then unpack p.0 else none), p.1)

  -- `network_receive`: `none` ends the connection. The first call of `read` gives both octets of the
  -- size, or what there is of them; it is not interrupted, and there is memory for what fits a
  -- `short`.
  unfoldable pub network_receive : Read → List ℕ → Outcome WireFault (Option Message × List ℕ)
  network_receive r [] = ok (none, [])
  network_receive r (a ∷ []) = receive_sized r (a * 256) []
  network_receive r (a ∷ (b ∷ stream)) = receive_sized r (a * 256 + b) stream
