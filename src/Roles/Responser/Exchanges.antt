-- ===== src/Roles/Responser/Exchanges.antt =====
-- OpenSocketResponser.py: requests as they come in, with the responses to them.
use knot_link_sdk.Base.{
  ◌≡◌, refl, ap, sym, Option, List, [], ◌∷◌, ◌++◌, append_assoc, length, arith, All,
}
use knot_link_sdk.Text.Utf8.{Text, Bytes}
use knot_link_sdk.Tcp.Frames.{frames}
use knot_link_sdk.Roles.{UserFunction}
use knot_link_sdk.Roles.Responser.Service.{Job, IsJob, items_of, messages_of}
use knot_link_sdk.Roles.Responser.Deliveries.{Request, IsRequest, requests_bytes, queued}

pub record Exchange : Type 0 where
  pub request : Request
  pub response : Text
  pub response_bytes : Bytes

abbrev pub job_of : Exchange → Job
job_of e = record {
  payload = e.request.payload;
  key = e.request.key;
  response = e.response;
  key_bytes = e.request.key_bytes;
  response_bytes = e.response_bytes;
}

-- A request that can be told apart and that the user's function answers, with an answer that can go out.
pub record IsExchange (f : UserFunction (Option Text)) (e : Exchange) : Type 0 where
  pub asks : IsRequest e.request
  pub answers : IsJob f (job_of e)

abbrev pub requests_of : List Exchange → List Request
requests_of [] = []
requests_of (e ∷ es) = e.request ∷ requests_of es

abbrev pub jobs_of : List Exchange → List Job
jobs_of [] = []
jobs_of (e ∷ es) = job_of e ∷ jobs_of es

-- The bytes that come in, and those that go out.
abbrev pub incoming : List Exchange → Bytes
incoming es = frames (requests_bytes (requests_of es))

abbrev pub outgoing : List Exchange → Bytes
outgoing es = frames (messages_of (jobs_of es))

pub IsRequest-requests_of :
    (f : UserFunction (Option Text)) (es : List Exchange)
    → All (IsExchange f) es
    → All IsRequest (requests_of es)
IsRequest-requests_of f [] _ = tt
IsRequest-requests_of f (e ∷ es) (h, hs) = (h.asks, IsRequest-requests_of f es hs)

pub IsJob-jobs_of :
    (f : UserFunction (Option Text)) (es : List Exchange)
    → All (IsExchange f) es
    → All (IsJob f) (jobs_of es)
IsJob-jobs_of f [] _ = tt
IsJob-jobs_of f (e ∷ es) (h, hs) = (h.answers, IsJob-jobs_of f es hs)

pub items_of-queued :
    (pending now : List Exchange)
    → items_of (jobs_of pending) ++ queued (requests_of now) ≡ items_of (jobs_of (pending ++ now))
items_of-queued [] [] = refl
items_of-queued [] (e ∷ now) =
    ap (λ xs. (e.request.payload, e.request.key) ∷ xs) (items_of-queued [] now)
items_of-queued (e ∷ pending) now =
    ap (λ xs. (e.request.payload, e.request.key) ∷ xs) (items_of-queued pending now)

pub outgoing-append : (xs ys : List Exchange) → outgoing (xs ++ ys) ≡ outgoing xs ++ outgoing ys
outgoing-append [] ys = refl
outgoing-append (e ∷ xs) ys =
    rw (outgoing-append xs ys) (sym (append_assoc _ (outgoing xs) (outgoing ys)))

pub length-requests_of : (es : List Exchange) → length (requests_of es) ≡ length es
length-requests_of [] = refl
length-requests_of (e ∷ es) = omega (arith, length-requests_of es)

pub length-jobs_of : (es : List Exchange) → length (jobs_of es) ≡ length es
length-jobs_of [] = refl
length-jobs_of (e ∷ es) = omega (arith, length-jobs_of es)

-- A cut of the messages is one of the exchanges.
pub requests_split :
    (es : List Exchange) (now later : List Bytes)
    → requests_bytes (requests_of es) ≡ now ++ later
    → (xs ys : List Exchange) × (es ≡ xs ++ ys)
      × (requests_bytes (requests_of xs) ≡ now)
      × (requests_bytes (requests_of ys) ≡ later)
requests_split es [] later e = ([], es, refl, refl, e)
requests_split [] (b ∷ now) later e = cc
requests_split (x ∷ es) (b ∷ now) later e =
    let (xs, ys, all, first, second) = requests_split es now later (cc e) in
    (x ∷ xs, ys, ap (λ zs. x ∷ zs) all, cc (e, first), second)
