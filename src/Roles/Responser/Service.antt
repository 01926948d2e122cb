-- ===== src/Roles/Responser/Service.antt =====
-- OpenSocketResponser.py, `_process_queue`: all requests in the queue are answered, in their order.
use knot_link_sdk.Base.{
  ℕ, zero, suc, ◌-◌, ◌≤◌, ◌≡◌, refl, ap, sym, ◌∙◌, true, false, Option, some, List, [], ◌∷◌, ◌++◌,
  append_assoc, append-nil, arith, length, All, if_true, if_false, Bool-cases, inl, inr,
}
use knot_link_sdk.Exec.{Result, ok, continue, ◌>>◌}
use knot_link_sdk.Text.Utf8.{Text, Bytes, encode}
use knot_link_sdk.Text.Search.{separator}
use knot_link_sdk.Wire.{frame}
use knot_link_sdk.Tcp.{TcpClient, send_data, write_with_length_prefix}
use knot_link_sdk.Tcp.Net.{sendall}
use knot_link_sdk.Tcp.Frames.{frames}
use knot_link_sdk.Tcp.Sending.{taken}
use knot_link_sdk.Tcp.Streams.{IsInLimit}
use knot_link_sdk.Roles.{UserFunction}
use knot_link_sdk.Roles.Responser.{Responser, answer, task_done, with_items, serve, process_queue}
use knot_link_sdk.Roles.Responser.Answers.{answer-sends}

-- A request in the queue, the response to it, and the bytes of the key and of the response.
pub record Job : Type 0 where
  pub payload : Text
  pub key : Text
  pub response : Text
  pub key_bytes : Bytes
  pub response_bytes : Bytes

abbrev pub message_of : Job → Bytes
message_of job = (job.key_bytes ++ separator) ++ job.response_bytes

abbrev pub items_of : List Job → List (Text × Text)
items_of [] = []
items_of (job ∷ jobs) = (job.payload, job.key) ∷ items_of jobs

abbrev pub messages_of : List Job → List Bytes
messages_of [] = []
messages_of (job ∷ jobs) = message_of job ∷ messages_of jobs

-- The user's function gives the response, and the message with it can go out.
pub record IsJob (f : UserFunction (Option Text)) (job : Job) : Type 0 where
  pub responds : f job.payload ≡ ok (some job.response)
  pub key_encodes : encode job.key ≡ some job.key_bytes
  pub response_encodes : encode job.response ≡ some job.response_bytes
  pub fits : IsInLimit (message_of job)

-- A connection that is up, and on which no call of `sendall` will fail.
pub record IsUp {S : Type 0} (t : TcpClient S) : Type 0 where
  pub on : t.connected ≡ true
  pub open_ : t.tcp_socket.closed ≡ false
  pub faultless : t.tcp_socket.faults ≡ []

pub send_data-IsUp :
    {S : Type 0} (bytes : Bytes) (t : TcpClient S)
    → IsUp t
    → IsInLimit bytes
    → send_data bytes t ≡ (ok tt, taken t (frame bytes) [])
unfolding send_data write_with_length_prefix sendall
send_data-IsUp bytes t up fit = ground (arith, up.on, up.open_, up.faultless)

-- The responder after one request has been answered.
abbrev pub after : Job → List (Text × Text) → Responser → Responser
after job rest s = record s {
  client = record {
    tcp = taken s.client.tcp (frame (message_of job)) [];
    host = record { items = rest; unfinished = s.client.host.unfinished - 1 };
  };
}

-- From `s`, the thread has sent the messages of these jobs in their order, the queue is empty, each job
-- counts as done, and the connection is still up.
pub record Served (jobs : List Job) (s : Responser) (r : Result (Unit {0}) × Responser)
    : Type 0 where
  pub returned : r.0 ≡ ok tt
  pub sent :
      r.1.client.tcp.tcp_socket.sent ≡ s.client.tcp.tcp_socket.sent ++ frames (messages_of jobs)
  pub emptied : r.1.client.host.items ≡ []
  pub counted : r.1.client.host.unfinished ≡ s.client.host.unfinished - length jobs
  pub still_on : r.1.client.tcp.connected ≡ true

module _ (f : UserFunction (Option Text)) where
  serve_one :
      (job : Job) (rest : List (Text × Text)) (s : Responser)
      → s.recv_func ≡ some f
      → IsUp s.client.tcp
      → IsJob f job
      → serve ((job.payload, job.key) ∷ rest) s ≡ (ok tt, after job rest s)
  unfolding serve task_done
  serve_one job rest s has_f up j =
      ap (λ r. (r.0, task_done r.1))
        (ap (λ g. answer g job.payload job.key (with_items rest s)) has_f
          ∙ answer-sends f job.payload job.key job.response job.key_bytes job.response_bytes
              (with_items rest s) j.responds j.key_encodes j.response_encodes
          ∙ ap
              (λ r. (
                r.0,
                record s {
                  client = record { tcp = r.1; host = record s.client.host { items = rest } };
                },
              ))
              (send_data-IsUp (message_of job) s.client.tcp up j.fits))

  process_one :
      (rounds : ℕ) (s : Responser)
      → s.client.tcp.connected ≡ true
      → process_queue (suc rounds) s ≡ (serve s.client.host.items >> process_queue rounds) s
  unfolding process_queue
  process_one rounds s on =
      if_true ((serve s.client.host.items >> process_queue rounds) s) (ok tt, s) on

  pub idle :
      (rounds : ℕ) (s : Responser) → s.client.host.items ≡ [] → process_queue rounds s ≡ (ok tt, s)
  unfolding process_queue serve
  idle zero s empty = refl
  idle (suc rounds) s empty = elim (Bool-cases s.client.tcp.connected) [
    | inl on ↦
        if_true ((serve s.client.host.items >> process_queue rounds) s) (ok tt, s) on
        ∙ ap (λ items. (serve items >> process_queue rounds) s) empty
        ∙ idle rounds s empty
    | inr off ↦ if_false ((serve s.client.host.items >> process_queue rounds) s) (ok tt, s) off
  ]

  pub step :
      (rounds : ℕ) (job : Job) (rest : List (Text × Text)) (s : Responser)
      → s.recv_func ≡ some f
      → IsUp s.client.tcp
      → IsJob f job
      → s.client.host.items ≡ (job.payload, job.key) ∷ rest
      → process_queue (suc rounds) s ≡ process_queue rounds (after job rest s)
  step rounds job rest s has_f up j queue =
      process_one rounds s up.on
      ∙ ap (λ items. (serve items >> process_queue rounds) s) queue
      ∙ ap (λ r. continue r.0 (λ _. process_queue rounds) r.1) (serve_one job rest s has_f up j)

  -- If the user's function gives a response to each request in the queue, keys and responses
  -- have encodings, the messages are within the limit, and the connection is up and no sending
  -- fails, then at least as many rounds of the responder's thread as there are requests return,
  -- send all responses under their keys in the order of the requests, leave the queue empty and
  -- the connection up, and count each request as done.
  pub process_queue-Served :
      (rounds : ℕ) (jobs : List Job) (s : Responser)
      → s.recv_func ≡ some f
      → IsUp s.client.tcp
      → s.client.host.items ≡ items_of jobs
      → All (IsJob f) jobs
      → length jobs ≤ rounds
      → Served jobs s (process_queue rounds s)
  process_queue-Served rounds [] s has_f up queue js le = rw (idle rounds s queue) (record {
    returned = refl;
    sent = sym (append-nil s.client.tcp.tcp_socket.sent);
    emptied = queue;
    counted = omega arith;
    still_on = up.on;
  })
  process_queue-Served zero (job ∷ jobs) s has_f up queue js le = absurd (omega arith)
  process_queue-Served (suc rounds) (job ∷ jobs) s has_f up queue (j, js) le =
      let t = after job (items_of jobs) s in
      let rest =
        process_queue-Served rounds jobs t has_f
          (record { on = up.on; open_ = up.open_; faultless = refl }) refl js (omega arith) in
      rw (step rounds job (items_of jobs) s has_f up j queue) (record {
        returned = rest.returned;
        sent =
            rest.sent
            ∙ append_assoc s.client.tcp.tcp_socket.sent (frame (message_of job))
                (frames (messages_of jobs));
        emptied = rest.emptied;
        counted = omega (arith, rest.counted);
        still_on = rest.still_on;
      })
