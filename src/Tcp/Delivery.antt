-- ===== src/Tcp/Delivery.antt =====
-- tcpclient.py, `receive_data`: a stream of frames, however it is cut, delivers their messages.
use knot_link_sdk.Base.{ℕ, ◌≡◌, ◌≢◌, refl, true, some, List, [], ◌∷◌, ◌++◌, map, concat, All}
use knot_link_sdk.Exec.{ok}
use knot_link_sdk.Wire.{Bytes, IsSendable}
use knot_link_sdk.Tcp.{Client, chunk, receive_data}
use knot_link_sdk.Tcp.Frames.{frames, returning, consumed}
use knot_link_sdk.Tcp.Returns.{Returns, no_condition, receive_data-returns}

module _ {S : Type 0} (step : Bytes → S → S) where
  pub returning-Returns : Returns (λ _. Unit {0}) (λ _. Unit {0}) (returning step) step
  returning-Returns = record { returns = λ msg host _ _. refl; keeps = λ msg host _ _. tt }

  -- On a connected client with an empty buffer, whose callback returns, the frames of messages
  -- of 1 byte to 16 MB, cut into chunks that are not empty in any way, are received without an
  -- exception, and the callback gets just those messages in their order, heartbeat responses
  -- left out.
  pub receive_data-frames :
      (x : ℕ) (xs : Bytes) (chunks msgs : List Bytes) (c : Client S)
      → c.tcp.connected ≡ true
      → c.tcp.received_data_callback ≡ some (returning step)
      → c.tcp.buffer ≡ []
      → All (λ piece. piece ≢ []) chunks
      → All IsSendable msgs
      → (x ∷ xs) ++ concat chunks ≡ frames msgs
      → ((receive_data (chunk (x ∷ xs) ∷ map chunk chunks) c).0 ≡ ok tt)
        × ((receive_data (chunk (x ∷ xs) ∷ map chunk chunks) c).1.host ≡ consumed step msgs c.host)
  receive_data-frames x xs chunks msgs c on set empty full s stream =
      receive_data-returns (λ _. Unit {0}) (λ _. Unit {0}) (returning step) step returning-Returns x
        xs chunks msgs c on set empty tt full s (no_condition msgs) stream
