-- ===== src/Examples/Endings.antt =====
-- The examples of use, on a network that fails.
use knot_link_sdk.Base.{true, some, none, [], ◌∷◌, codes}
use knot_link_sdk.Tcp.{init, chunk, failure}
use knot_link_sdk.Tcp.Net.{fresh}
use knot_link_sdk.Scripts.{beats, reads, meets, serves, tcp_client, sender, subscriber, responser}
use knot_link_sdk.Scripts.Endings.{Ended, examples-Ended}

-- The third call of `sendall` fails after two bytes, and then the socket fails.
examples-Ended_example :
    (let p =
        tcp_client
          (beats ∷ [])
          (beats ∷ reads failure ∷ [])
          (record { tcp = init (fresh true (none ∷ none ∷ some 2 ∷ [])); host = tt }) in
      Ended p.0 p.1.tcp)
    × (let p = sender true (none ∷ none ∷ some 2 ∷ []) (beats ∷ reads failure ∷ []) in
        Ended p.0 p.1.tcp)
    × (let p = subscriber true (none ∷ none ∷ some 2 ∷ []) (beats ∷ reads failure ∷ []) in
        Ended p.0 p.1.client.tcp)
    × (let p =
          responser true
            (none ∷ none ∷ some 2 ∷ [])
            (meets (reads (chunk (codes "KK"))) ∷ serves ∷ []) in
        Ended p.0 p.1.client.tcp)
examples-Ended_example =
    examples-Ended true (none ∷ none ∷ some 2 ∷ []) (beats ∷ []) (beats ∷ reads failure ∷ [])
      (meets (reads (chunk (codes "KK"))) ∷ serves ∷ [])
