-- ===== src/PortForward/Relay.antt =====
-- The two ends of a tunnel: what one end sends is handed to the other, as the session's connection
-- does. `Tcp` stands twice, since the ends run on two machines.
use undying_terminal.Prelude.{◌≡◌, true, some, List, [], ◌∷◌, ◌++◌, Bytes}
use undying_terminal.Table.{int_key}
use undying_terminal.PortForward.{
  Tcp, PortForwardHandler, Effect, sends, writes, closes, Update, send_coded, handle_request,
  handle_response, handle_data, handle_packet,
}
use undying_terminal.PortForward.Messages.{
  DestinationRequest, DestinationResponse, Data, Codec, IsCodec, destination_request,
  destination_response, forward_data,
}

-- What a list of effects sends, handed to the other end packet by packet.
module _ {Net : Type 0} (tcp : Tcp Net) (codec : Codec) where
  unfoldable pub relay : List Effect → PortForwardHandler → Net → Update Net
  relay [] h n = (h, [], n)
  relay (sends p ∷ es) h n =
      let (h', done, n') = handle_packet tcp codec h p n in
      let (h'', later, n'') = relay es h' n' in (h'', done ++ later, n'')
  relay (writes s b ∷ es) h n = relay es h n
  relay (closes s ∷ es) h n = relay es h n

-- Every message can be serialized.
pub record IsTotal (codec : Codec) : Type 0 where
  pub request_total : (m : DestinationRequest) → (b : Bytes) × (codec.put_request m ≡ some b)
  pub response_total : (m : DestinationResponse) → (b : Bytes) × (codec.put_response m ≡ some b)
  pub data_total : (m : Data) → (b : Bytes) × (codec.put_data m ≡ some b)

module _ {Net : Type 0} (tcp : Tcp Net) (codec : Codec) (coded : IsCodec codec)
    (total : IsTotal codec) where
  -- A request that an end sends is handled as the message that it was.
  pub relay_request :
      (m : DestinationRequest) (h : PortForwardHandler) (n : Net)
      → h.server_side ≡ true
      → relay tcp codec (send_coded destination_request (codec.put_request m)) h n
        ≡ (let (h', done, n') = handle_request tcp codec h n (some m) in (h', done ++ [], n'))
  unfolding relay handle_packet
  relay_request m h n server =
      let (b, e) = total.request_total m in rw e (simp (coded.get-put-request m b e, server))

  pub relay_response :
      (m : DestinationResponse) (h : PortForwardHandler) (n : Net)
      → relay tcp codec (send_coded destination_response (codec.put_response m)) h n
        ≡ (let (h', done, n') = handle_response tcp codec h n (some m) in (h', done ++ [], n'))
  unfolding relay handle_packet
  relay_response m h n =
      let (b, e) = total.response_total m in rw e (simp (coded.get-put-response m b e))

  pub relay_datum :
      (m : Data) (h : PortForwardHandler) (n : Net)
      → relay tcp codec (send_coded forward_data (codec.put_data m)) h n
        ≡ (let (h', done, n') = handle_data tcp codec h n (some m) in (h', done ++ [], n'))
  unfolding relay handle_packet
  relay_datum m h n = let (b, e) = total.data_total m in rw e (simp (coded.get-put-data m b e))

  pub relay_data :
      (m : Data) (es : List Effect) (h : PortForwardHandler) (n : Net)
      → relay tcp codec (send_coded forward_data (codec.put_data m) ++ es) h n ≡ (
          let (h', done, n') = handle_data tcp codec h n (some m) in
          let (h'', later, n'') = relay tcp codec es h' n' in (h'', done ++ later, n''))
  unfolding relay handle_packet
  relay_data m es h n = let (b, e) = total.data_total m in rw e (simp (coded.get-put-data m b e))
