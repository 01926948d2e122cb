-- ===== src/Qt/Responser/Requests.antt =====
-- OpenSocketResponser.py of the PyQt variant, against the one of knotlink-sdk-python.
use knot_link_sdk.Base.{
  ℕ, ◌≡◌, ◌≢◌, refl, ap, ◌∙◌, inl, inr, some, List, [], ◌∷◌, ◌++◌, Option-cases,
}
use knot_link_sdk.Exec.{ok, continue}
use knot_link_sdk.Text.Utf8.{Text, Bytes, encode, encode_point, decode}
use knot_link_sdk.Text.Utf8.RoundTrip.{decode-encode}
use knot_link_sdk.Text.Utf8.Append.{encode-append}
use knot_link_sdk.Text.Search.{separator, cut, split}
use knot_link_sdk.Text.Search.Laws.{Lacks, cut-append, cut-first, cut-Lacks}
use knot_link_sdk.Text.Search.Splits.{split-none, split-some}
use knot_link_sdk.Roles.Responser
use knot_link_sdk.Roles.Responser.{Queue, put}
use knot_link_sdk.Roles.Responser.Answers.{internal_data_recv-request}
use knot_link_sdk.Qt.Responser.{
  Output, received_data_a, received_data, emit_parts, data_recv, decoded,
}

encode-separator : encode separator ≡ some separator
unfolding encode encode_point
encode-separator = refl

abbrev rest_of_separator : List ℕ
rest_of_separator = b'*' ∷ b'&' ∷ []

-- The text of a request
decode-request :
    (key s : Text) (kb sb : Bytes)
    → encode key ≡ some kb
    → encode s ≡ some sb
    → decode (kb ++ (separator ++ sb)) ≡ some (key ++ (separator ++ s))
decode-request key s kb sb ek es =
    (decode-encode (key ++ (separator ++ s)) (kb ++ (separator ++ sb)) (
      encode-append key (separator ++ s) kb (separator ++ sb) ek
        (encode-append separator s separator sb encode-separator es))).0

split-key :
    (key s : Text)
    → Lacks b'&' key
    → split separator (key ++ (separator ++ s)) ≡ key ∷ split separator s
split-key key s h =
    split-some b'&' rest_of_separator (key ++ (separator ++ s)) key s
      (cut-append b'&' rest_of_separator key s h)

decoded-some :
    {S : Type 0} (bytes : Bytes) (s : Text) (state : S)
    → decode bytes ≡ some s
    → decoded bytes state ≡ (ok s, state)
decoded-some bytes s state e = rw (e, decoded) refl

data_recv-decoded :
    (bytes : Bytes) (s : Text) (out : List Output)
    → decode bytes ≡ some s
    → data_recv bytes out ≡ emit_parts (split separator s) out
unfolding data_recv
data_recv-decoded bytes s out e =
    ap (λ r. continue r.0 (λ t. emit_parts (split separator t)) r.1) (decoded-some bytes s out e)

emit_parts_two :
    (key s : Text) (sb : Bytes) (out : List Output)
    → encode s ≡ some sb
    → emit_parts (key ∷ s ∷ []) out
      ≡ (ok tt, (out ++ received_data_a sb key ∷ []) ++ received_data s key ∷ [])
unfolding emit_parts
emit_parts_two key s sb out e = rw e refl

-- On a request with a key and a text that both lack `&`, the text not being empty, the responder
-- of the PyQt variant emits the text and the key, as bytes and as a text, and the plain responder
-- puts the same text and key into its queue.
pub data_recv-internal_data_recv :
    (key s : Text) (kb sb : Bytes) (out : List Output) (q : Queue)
    → encode key ≡ some kb
    → encode s ≡ some sb
    → Lacks b'&' key
    → Lacks b'&' s
    → sb ≢ []
    → (data_recv (kb ++ (separator ++ sb)) out
        ≡ (ok tt, (out ++ received_data_a sb key ∷ []) ++ received_data s key ∷ []))
      × (Responser.internal_data_recv (kb ++ (separator ++ sb)) q ≡ (ok tt, put (s, key) q))
data_recv-internal_data_recv key s kb sb out q ek es hk hs full = (
  data_recv-decoded (kb ++ (separator ++ sb)) (key ++ (separator ++ s)) out
        (decode-request key s kb sb ek es)
      ∙ ap (λ parts. emit_parts parts out)
          (split-key key s hk
            ∙ ap (λ parts. key ∷ parts)
                (split-none b'&' rest_of_separator s (cut-Lacks b'&' rest_of_separator s hs)))
      ∙ emit_parts_two key s sb out es,
  internal_data_recv-request key s kb sb q ek es hk full,
)

-- A text is split into one part at least.
split_cons : (s : Text) → (part : Text) × (parts : List Text) × (split separator s ≡ part ∷ parts)
split_cons s = elim (Option-cases (cut separator s)) [
  | inl none_ ↦ (s, [], split-none b'&' rest_of_separator s none_)
  | inr ((part, rest), found) ↦
      (part, split separator rest, split-some b'&' rest_of_separator s part rest found)
]

emit_parts_many :
    (a b c : Text) (parts : List Text) (out : List Output)
    → emit_parts (a ∷ b ∷ c ∷ parts) out ≡ (ok tt, out)
unfolding emit_parts
emit_parts_many a b c parts out = refl

-- On a request with a key without `&` and a text that holds the separator, the responder of the
-- PyQt variant emits nothing, and the plain responder puts the whole text and the key into its
-- queue.
pub data_recv-separator :
    (key before after : Text) (kb sb : Bytes) (out : List Output) (q : Queue)
    → encode key ≡ some kb
    → encode (before ++ (separator ++ after)) ≡ some sb
    → Lacks b'&' key
    → sb ≢ []
    → (data_recv (kb ++ (separator ++ sb)) out ≡ (ok tt, out))
      × (Responser.internal_data_recv (kb ++ (separator ++ sb)) q
          ≡ (ok tt, put (before ++ (separator ++ after), key) q))
data_recv-separator key before after kb sb out q ek es hk full =
    let s = before ++ (separator ++ after) in
    let (p, r, found, _) = cut-first b'&' rest_of_separator before after in
    let (part, parts, cons) = split_cons r in
    (
      data_recv-decoded (kb ++ (separator ++ sb)) (key ++ (separator ++ s)) out
            (decode-request key s kb sb ek es)
          ∙ ap (λ l. emit_parts l out)
              (split-key key s hk
                ∙ ap (λ l. key ∷ l)
                    (split-some b'&' rest_of_separator s p r found ∙ ap (λ l. p ∷ l) cons))
          ∙ emit_parts_many key p part parts out,
      internal_data_recv-request key s kb sb q ek es hk full,
    )
