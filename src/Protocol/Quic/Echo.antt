-- ===== src/Protocol/Quic/Echo.antt =====
-- A message to the server and back.
use network_lirbary.Common.Text.{codes}
use network_lirbary.Common.{
  ◌≡◌, ap, ◌∙◌, ◌==◌, le→ltb, lt→ltb, if◌then◌else◌, ◌++◌, some, length, drop, get_or, Bytes, arith,
  take_all,
}
use network_lirbary.Memory.Buffer.Contents.{IsValid, contents, readable_bytes-eq, peek_lem}
use network_lirbary.Memory.Buffer.{Buffer, readable_bytes, peek, retrieve_all}
use network_lirbary.Protocol.Host.{Host, send, calling, Handling}
use network_lirbary.Protocol.Quic.{on_message, packet, on_data_quic, handed}

whole : (b : Buffer) → IsValid b → peek b (readable_bytes b) ≡ contents b
whole b v =
    ap (peek b) (readable_bytes-eq b v)
    ∙ peek_lem b (length (contents b)) v (omega arith)
    ∙ take_all (length (contents b)) (contents b) (omega arith)

-- A server's input that holds one packet of the client is answered with the payload behind an
-- acknowledgement, and a client's input that holds that answer hands it to the message handler as
-- one envelope; both buffers are emptied.
pub on_data_quic-on_message :
    (h : Host) (f : h.World → h.Envelope → h.World) (server client : Handling h.World)
    (payload : Bytes)
    → IsValid server.input
    → contents server.input ≡ packet payload
    → IsValid client.input
    → contents client.input ≡ codes "QUIC-ACK: " ++ payload
    → (on_message server ≡ record {
      input = retrieve_all server.input;
      app = calling server.app (send (codes "QUIC-ACK: " ++ payload));
    })
      × (on_data_quic h (some f) client ≡ record {
        input = retrieve_all client.input;
        app = record client.app {
          world = f client.app.world (h.set_payload_data h.empty (codes "QUIC-ACK: " ++ payload));
        };
      })
unfolding on_message on_data_quic handed
on_data_quic-on_message h f server client payload v e v' e' = (
  ap
        (λ b. if b then server else record {
          input = retrieve_all server.input;
          app =
              if get_or (peek server.input (readable_bytes server.input)) 0 0 == 1
              then calling server.app (
                  send (
                    codes "QUIC-ACK: " ++ drop 9 (peek server.input (readable_bytes server.input))))
              else server.app;
        })
        (le→ltb (readable_bytes server.input) 9
          (omega (arith, readable_bytes-eq server.input v, ap length e)))
      ∙ ap
          (λ bytes. record {
            input = retrieve_all server.input;
            app =
                if get_or bytes 0 0 == 1
                then calling server.app (send (codes "QUIC-ACK: " ++ drop 9 bytes))
                else server.app;
          })
          (whole server.input v ∙ e),
  ap
        (λ b.
          if b
          then record {
            input = retrieve_all client.input;
            app = handed h (some f) client.app (peek client.input (readable_bytes client.input));
          }
          else client)
        (lt→ltb 0 (readable_bytes client.input)
          (omega (arith, readable_bytes-eq client.input v', ap length e')))
      ∙ ap
          (λ bytes. record {
            input = retrieve_all client.input;
            app = handed h (some f) client.app bytes;
          })
          (whole client.input v' ∙ e'),
)
