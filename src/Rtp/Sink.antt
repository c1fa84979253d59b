-- ===== src/Rtp/Sink.antt =====
-- `rtp_sink_render` of src/rtp-sink.c. Mapping the buffer may fail, and the socket may refuse the
-- packet: both are arguments.
use nanotalk.Base.{
  ℕ, ◌+◌, ◌%◌, ◌^◌, Bool, false, ◌&&◌, Option, none, some, List, [], ◌∷◌, ◌++◌, ◌==◌, ltb,
  if◌then◌else◌, length, take, drop,
}
use nanotalk.Common.{Bytes, DhtKey, Sodium, stream_xor, stream_auth}
use nanotalk.Rtp.{Flow, flow_ok, flow_error, byte, read_seq, read_ssrc, make_nonce, header_size}

-- `struct _RtpSink`, less the socket.
pub record RtpSink : Type 0 where
  pub key : DhtKey
  pub roc : ℕ

-- `rtp_sink_new`, on an instance that GObject has zeroed.
unfoldable pub new_sink : DhtKey → RtpSink
new_sink key = record { key = key; roc = 0 }

-- The reports by `GST_ELEMENT_ERROR`.
pub data SinkError : Type 0 where
  key_limit write_failed invalid_header : SinkError

-- What a call sends and reports.
pub record Rendered : Type 0 where
  pub sink : RtpSink
  pub flow : Flow
  pub sent : List Bytes
  pub errors : List SinkError

-- `seq == G_MAXUINT16 && ++roc == 1ULL << 48`: the counter, and the result of the test.
unfoldable pub count_packet : ℕ → ℕ → ℕ × Bool
count_packet roc seq =
    if seq == 0xffff
    then (let roc' = (roc + 1) % 2 ^ 64 in (roc', roc' == 2 ^ 48))
    else (roc, false)

module _ (s : Sodium) where
  -- Header, encrypted payload and tag.
  unfoldable pub seal : DhtKey → Bytes → Bytes → Bytes
  seal key nonce m =
      let packet = take header_size m ++ stream_xor s (drop header_size m) nonce key in
      packet ++ stream_auth s packet nonce key

  unfoldable pub render_mapped : Bool → RtpSink → Bytes → Rendered
  render_mapped accepted sink m =
      if ltb header_size (length m) && (byte m 0 == 0x80)
      then (let seq = read_seq m in
          let nonce = make_nonce sink.roc seq (read_ssrc m) in
          let (roc, limit) = count_packet sink.roc seq in
          record {
            sink = record sink { roc = roc };
            flow = flow_ok;
            sent = seal sink.key nonce m ∷ [];
            errors =
                (if limit then key_limit ∷ [] else [])
                ++ (if accepted then [] else write_failed ∷ []);
          })
      else (record { sink = sink; flow = flow_ok; sent = []; errors = invalid_header ∷ [] })

  -- `rtp_sink_render`; `none` is a buffer that cannot be mapped.
  unfoldable pub render : Bool → RtpSink → Option Bytes → Rendered
  render accepted sink none = record { sink = sink; flow = flow_error; sent = []; errors = [] }
  render accepted sink (some m) = render_mapped accepted sink m
