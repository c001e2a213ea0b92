-- ===== src/Store/Wire/Delivered.antt =====
-- A request that fits is served, and its reply, if it fits, is what the client gets.
use sd.Common.{
  ℕ, ◌^◌, ◌<◌, ◌≤◌, ◌≡◌, ap, sym, ◌∙◌, true, Option, none, some, List, [], ◌∷◌, ◌++◌, length, take,
  append-nil, if◌then◌else◌, maybe, eqb, leb, Outcome, ok, err, ◌>>=◌, if_true, arith,
}
use sd.Store.Table.{Fault}
use sd.Store.Server.{Request, Reply}
use sd.Store.Wire.{
  Write, wrote, WriteResult, all_written, write_all, Read, read_interrupted, read_failed, got,
  WireFault, put_short, short_size, network_send, network_receive,
}
use sd.Store.Wire.Framing.{
  capacity, write_all_lem, take_whole, short_size_lem, short_value, network_send_lem,
  network_receive-network_send,
}
use sd.Store.Wire.Exchange.{
  Codec, Link, CallFault, in_server, on_wire, is_written, client_send, response_sized,
  client_receive, handle_request, network_send_receive, call, client_result, null_response,
}

-- The octets that a call of `read` gives at most.
abbrev pub octets : Read → ℕ
octets read_interrupted = 0
octets read_failed = 0
octets (got m) = m

-- The calls take and give what fits a `short`.
pub record Reliable (link : Link) : Type 0 where
  pub client_room : 2 ^ 15 ≤ capacity link.client_writes
  pub server_gets : 2 ^ 15 ≤ octets link.server_read
  pub server_room : 2 ^ 15 ≤ capacity link.server_writes
  pub client_gets : 2 ^ 15 ≤ octets link.client_read

-- A message fits a `short`, and is unpacked as it was packed.
pub record Carried {Message : Type 0} (pack : Message → List ℕ) (unpack : List ℕ → Option Message)
    (msg : Message) : Type 0 where
  pub fits : length (pack msg) < 2 ^ 15
  pub some_octets : 0 < length (pack msg)
  pub unpacks : unpack (pack msg) ≡ some msg

abbrev pub CarriedRequest : Codec → Request → Type 0
CarriedRequest codec = Carried codec.pack_request codec.unpack_request

abbrev pub CarriedReply : Codec → Reply → Type 0
CarriedReply codec = Carried codec.pack_reply codec.unpack_reply

module _ {Message : Type 0} (pack : Message → List ℕ) (unpack : List ℕ → Option Message) where
  received :
      (r : Read) (msg : Message)
      → 2 ^ 15 ≤ octets r
      → Carried pack unpack msg
      → network_receive pack unpack r (put_short (length (pack msg)) ++ pack msg)
        ≡ ok (some msg, [])
  received read_interrupted msg h c = absurd (omega arith)
  received read_failed msg h c = absurd (omega arith)
  received (got m) msg h c =
      let ws : List Write = wrote (length (pack msg)) ∷ [] in
      let room : length (pack msg) ≤ capacity ws = omega arith in
      let sent = network_send_lem pack unpack ws msg c.fits room in
      ap (network_receive pack unpack (got m))
        (sym (append-nil (put_short (length (pack msg)) ++ pack msg)))
      ∙ ap (λ (p : List ℕ × WriteResult). network_receive pack unpack (got m) (p.0 ++ []))
          (sym sent)
      ∙ network_receive-network_send pack unpack ws m msg [] c.fits c.some_octets room
          (omega (arith, c.fits)) c.unpacks

module _ (codec : Codec) where
  client_send_lem :
      (ws : List Write) (msg : Request)
      → 2 ^ 15 ≤ capacity ws
      → Carried codec.pack_request codec.unpack_request msg
      → client_send codec ws msg
        ≡ (put_short (length (codec.pack_request msg)) ++ codec.pack_request msg, all_written)
  client_send_lem ws msg h c =
      let buffer = codec.pack_request msg in
      let size = put_short (length buffer) in
      let sized : ℕ → List ℕ × WriteResult =
        λ n. let sent = write_all ws (take n buffer) in (size ++ sent.0, sent.1) in
      ap (λ (o : Option ℕ). maybe o (size, all_written) sized)
        (short_size_lem (length buffer) c.fits)
      ∙ ap (λ (b : List ℕ). (size ++ (write_all ws b).0, (write_all ws b).1)) (take_whole buffer)
      ∙ ap (λ (p : List ℕ × WriteResult). (size ++ p.0, p.1))
          (write_all_lem ws buffer (omega (arith, c.fits)))

  client_receive_lem :
      (r : Read) (msg : Reply)
      → 2 ^ 15 ≤ octets r
      → Carried codec.pack_reply codec.unpack_reply msg
      → client_receive codec r (put_short (length (codec.pack_reply msg)) ++ codec.pack_reply msg)
        ≡ ok (some msg)
  client_receive_lem read_interrupted msg h c = absurd (omega arith)
  client_receive_lem read_failed msg h c = absurd (omega arith)
  client_receive_lem (got m) msg h c =
      let buffer = codec.pack_reply msg in
      let size = length buffer in
      let k : (if leb m size then m else size) ≡ size = ground (arith, c.fits) in
      let same : eqb size size ≡ true = ground arith in
      let result : List ℕ → Outcome WireFault (Option Reply) =
        λ b. ok (if eqb (length b) size then codec.unpack_reply b else none) in
      ap (λ (n : ℕ). response_sized codec (got m) buffer (short_size n)) (short_value size c.fits)
      ∙ ap (response_sized codec (got m) buffer) (short_size_lem size c.fits)
      ∙ ap (λ (k : ℕ). result (take k buffer)) k
      ∙ ap result (take_whole buffer)
      ∙ ap (λ (o : Option Reply). ok o) (if_true _ _ same)
      ∙ ap (λ (o : Option Reply). ok o) c.unpacks

  module _ {ℓ} {S : Type ℓ} (serve : Request → S → Outcome Fault (S × Reply)) (link : Link)
      (reliable : Reliable link) where
    handle_request_lem :
        (msg : Request) (s s' : S) (reply : Reply)
        → Carried codec.pack_request codec.unpack_request msg
        → serve msg s ≡ ok (s', reply)
        → Carried codec.pack_reply codec.unpack_reply reply
        → handle_request codec serve link
            (put_short (length (codec.pack_request msg)) ++ codec.pack_request msg)
            s
          ≡ ok (s', put_short (length (codec.pack_reply reply)) ++ codec.pack_reply reply)
    unfolding handle_request
    handle_request_lem msg s s' reply c e d =
        let answer : Request → Outcome CallFault (S × List ℕ) = λ msg.
          in_server (serve msg s) >>= λ r.
          ok (r.0, (network_send codec.pack_reply codec.unpack_reply link.server_writes r.1).0) in
        ap
          (λ (o : Outcome WireFault (Option Request × List ℕ)).
            on_wire o >>= λ o. maybe o.0 (ok (s, [])) answer)
          (received codec.pack_request codec.unpack_request link.server_read msg
            reliable.server_gets c)
        ∙ ap
            (λ (o : Outcome Fault (S × Reply)). in_server o >>= λ r.
              ok (r.0, (network_send codec.pack_reply codec.unpack_reply link.server_writes r.1).0))
            e
        ∙ ap (λ (p : List ℕ × WriteResult). ok (s', p.0))
            (network_send_lem codec.pack_reply codec.unpack_reply link.server_writes reply d.fits
              (omega (arith, d.fits, reliable.server_room)))

    network_send_receive_lem :
        (msg : Request) (s s' : S) (reply : Reply)
        → Carried codec.pack_request codec.unpack_request msg
        → serve msg s ≡ ok (s', reply)
        → Carried codec.pack_reply codec.unpack_reply reply
        → network_send_receive codec serve link msg s ≡ ok (s', some reply)
    unfolding network_send_receive
    network_send_receive_lem msg s s' reply c e d =
        ap
          (λ (p : List ℕ × WriteResult). handle_request codec serve link p.0 s >>= λ r.
            client_result codec link.client_read (is_written p.1) r.1 >>= λ o. ok (r.0, o))
          (client_send_lem link.client_writes msg reliable.client_room c)
        ∙ ap
            (λ (o : Outcome CallFault (S × List ℕ)).
              o >>= λ r. client_result codec link.client_read true r.1 >>= λ o. ok (r.0, o))
            (handle_request_lem msg s s' reply c e d)
        ∙ ap (λ (o : Outcome WireFault (Option Reply)). on_wire o >>= λ o. ok (s', o))
            (client_receive_lem link.client_read reply reliable.client_gets d)

    -- The reply of the server is what the client gets.
    pub call_lem :
        (msg : Request) (s s' : S) (reply : Reply)
        → Carried codec.pack_request codec.unpack_request msg
        → serve msg s ≡ ok (s', reply)
        → Carried codec.pack_reply codec.unpack_reply reply
        → call codec serve link msg s ≡ ok (s', reply)
    unfolding call
    call_lem msg s s' reply c e d =
        ap
          (λ (o : Outcome CallFault (S × Option Reply)). o >>= λ r.
            maybe {B = Outcome CallFault (S × Reply)} r.1 (err null_response)
              (λ reply. ok (r.0, reply)))
          (network_send_receive_lem msg s s' reply c e d)
