-- ===== src/Store/Wire/Exchange.antt =====
-- A request of a client and its reply: `network_send_receive` of source/network_client.c, and with it
-- the loop of `client_handler` in source/network_server.c for the one request. What the calls of
-- the operating system give is a `Link`, and the packing of messages is a `Codec`. There is memory
-- for what a `short` counts.
use sd.Common.{
  ℕ, ◌*◌, ◌+◌, Bool, true, false, Option, none, some, List, [], ◌∷◌, ◌++◌, length, take, maybe,
  if◌then◌else◌, eqb, Outcome, ok, err, ◌>>=◌,
}
use sd.Store.Table.{Fault}
use sd.Store.Server.{Request, Reply}
use sd.Store.Wire.{
  Write, WriteResult, all_written, write_error, waiting, no_memory, overrun, write_all, Read,
  WireFault, uninitialised, read_all, put_short, short_size, network_send, network_receive,
}

-- `message_t__pack` and `message_t__unpack`, for requests and for replies.
pub record Codec : Type 0 where
  pub pack_request : Request → List ℕ
  pub unpack_request : List ℕ → Option Request
  pub pack_reply : Reply → List ℕ
  pub unpack_reply : List ℕ → Option Reply

-- What the calls of `write` and `read` give to the client and to the server.
pub record Link : Type 0 where
  pub client_writes : List Write
  pub server_read : Read
  pub server_writes : List Write
  pub client_read : Read

-- What may go wrong: in the server, with a buffer, or that the client reads a response that is NULL.
pub data CallFault : Type 0 where
  server_fault : Fault → CallFault
  wire_fault : WireFault → CallFault
  null_response : CallFault

abbrev pub in_server {ℓ} : {A : Type ℓ} → Outcome Fault A → Outcome CallFault A
in_server (ok a) = ok a
in_server (err e) = err (server_fault e)

abbrev pub on_wire {ℓ} : {A : Type ℓ} → Outcome WireFault A → Outcome CallFault A
on_wire (ok a) = ok a
on_wire (err e) = err (wire_fault e)

-- Whether a request is written; a call that waits for ever counts as one that fails.
abbrev pub is_written : WriteResult → Bool
is_written all_written = true
is_written write_error = false
is_written waiting = false
is_written no_memory = false
is_written overrun = false

module _ (codec : Codec) where
  -- The client's half: the size as a `short`, and so many octets of the message, which are none for a
  -- negative size.
  abbrev pub client_send : List Write → Request → List ℕ × WriteResult
  client_send ws msg =
      let buffer = codec.pack_request msg in
      let size = put_short (length buffer) in
      maybe (short_size (length buffer)) (size, all_written)
        λ n. let sent = write_all ws (take n buffer) in (size ++ sent.0, sent.1)

  -- The response after its size; NULL if fewer octets come, and `none` stands for it. No memory is
  -- found for a negative size.
  abbrev pub response_sized : Read → List ℕ → Option ℕ → Outcome WireFault (Option Reply)
  response_sized r stream none = ok none
  response_sized r stream (some n) = read_all r n stream >>= λ o.
      maybe o (ok none) λ p. ok (if eqb (length p.0) n then codec.unpack_reply p.0 else none)

  -- If the connection ends first, the size is not set.
  abbrev pub client_receive : Read → List ℕ → Outcome WireFault (Option Reply)
  client_receive r [] = err uninitialised
  client_receive r (a ∷ []) = err uninitialised
  client_receive r (a ∷ (b ∷ stream)) = response_sized r stream (short_size (a * 256 + b))

  -- The response is NULL if the request cannot be written.
  abbrev pub client_result : Read → Bool → List ℕ → Outcome CallFault (Option Reply)
  client_result r false stream = ok none
  client_result r true stream = on_wire (client_receive r stream)

  module _ {ℓ} {S : Type ℓ} (serve : Request → S → Outcome Fault (S × Reply)) (link : Link) where
    -- What the server does with the octets of a request: its state afterwards and the octets of its
    -- reply. It ends the connection where it receives no message.
    unfoldable pub handle_request : List ℕ → S → Outcome CallFault (S × List ℕ)
    unfolding network_receive network_send
    handle_request octets s =
        on_wire (network_receive codec.pack_request codec.unpack_request link.server_read octets)
        >>= λ o. maybe o.0 (ok (s, [])) λ msg. in_server (serve msg s) >>= λ r.
            ok (r.0, (network_send codec.pack_reply codec.unpack_reply link.server_writes r.1).0)

    unfoldable pub network_send_receive : Request → S → Outcome CallFault (S × Option Reply)
    unfolding handle_request write_all
    network_send_receive msg s =
        let sent = client_send link.client_writes msg in
        handle_request sent.0 s >>= λ r.
        client_result link.client_read (is_written sent.1) r.1 >>= λ o. ok (r.0, o)

    -- The fields of the response are read without a test.
    unfoldable pub call : Request → S → Outcome CallFault (S × Reply)
    unfolding network_send_receive
    call msg s =
        network_send_receive msg s >>= λ r. maybe r.1 (err null_response) (λ reply. ok (r.0, reply))
