-- ===== src/Examples/Encodings.antt =====
-- OpenSocketResponser.py: what arrives and what is answered, as texts that have encodings.
use knot_link_sdk.Base.{true, ◌≡◌, ◌⊎◌, refl, inr, Option, some, [], ◌∷◌, codes}
use knot_link_sdk.Exec.{value_error, ok, raised}
use knot_link_sdk.Text.Utf8.{Text, Bytes}
use knot_link_sdk.Tcp.{Client, init, chunk, failure, receive_data}
use knot_link_sdk.Tcp.Net.{fresh}
use knot_link_sdk.Roles.{UserFunction}
use knot_link_sdk.Roles.Responser.{Queue, Responser, internal_data_recv, process_queue}
use knot_link_sdk.Roles.Responser.Answers.{IsBalanced}
use knot_link_sdk.Roles.Responser.Encodings.{
  IsQueue, receive_data-IsQueue, RespondsInText, process_queue-OnlyLong,
}

abbrev no_requests : Queue
no_requests = record { items = []; unfinished = 0 }

no_requests-IsBalanced : IsBalanced no_requests
unfolding IsBalanced
no_requests-IsBalanced = refl

abbrev listening : Client Queue
listening = record {
  tcp = record (init (fresh true [])) {
    connected = true;
    received_data_callback = some internal_data_recv;
  };
  host = no_requests;
}

-- The frame of the key "k", the separator and two bytes of which the first is not UTF-8, in two chunks
abbrev first_chunk : Bytes
first_chunk = b'K' ∷ b'K' ∷ 0 ∷ 2 ∷ 0 ∷ 0 ∷ []

abbrev second_chunk : Bytes
second_chunk = 0 ∷ 6 ∷ b'k' ∷ b'&' ∷ b'*' ∷ b'&' ∷ 0xff ∷ b'x' ∷ []

receive_data-IsQueue_example :
    IsQueue (receive_data (chunk first_chunk ∷ chunk second_chunk ∷ failure ∷ []) listening).1.host
receive_data-IsQueue_example =
    receive_data-IsQueue (chunk first_chunk ∷ chunk second_chunk ∷ failure ∷ []) listening refl
      (record { servable = tt; balanced = no_requests-IsBalanced })

abbrev repeat : UserFunction (Option Text)
repeat payload = ok (some payload)

repeat-RespondsInText : RespondsInText repeat
repeat-RespondsInText = record { responds = λ s h. inr (s, refl, h) }

-- A responder with two requests in its queue
abbrev busy : Responser
busy = record {
  app_id = some (codes "app");
  open_socket_id = some (codes "id");
  recv_func = some repeat;
  client = record {
    tcp = record (init (fresh true [])) { connected = true };
    host = record { items = (codes "v", codes "k") ∷ (codes "w", codes "k") ∷ []; unfinished = 2 };
  };
}

process_queue-OnlyLong_example :
    ((process_queue 3 busy).0 ≡ ok tt) ⊎ ((process_queue 3 busy).0 ≡ raised value_error)
process_queue-OnlyLong_example =
    process_queue-OnlyLong repeat repeat-RespondsInText 3 busy refl
      (((refl, tt), (refl, tt)), (((refl, tt), (refl, tt)), tt))
