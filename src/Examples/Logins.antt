-- ===== src/Examples/Logins.antt =====
-- Tokens and sessions at concrete inputs.
use flight_circle_search.Base.{
  ◌≡◌, ◌≢◌, refl, [], ◌∷◌, Bytes, codes, ltb, if◌then◌else◌, ok, err, lookup, insert, bytes_beq,
}
use flight_circle_search.Auth.{not_found}
use flight_circle_search.Auth.Tokens.{
  issue, consume, token_ttl, token_key, store_token, consume_script,
}
use flight_circle_search.Auth.Tokens.Single.{consume-issue}
use flight_circle_search.Auth.Tokens.Used.{Later, consume-single}
use flight_circle_search.Examples.Server.{Server, server, server-IsRedis, server-KeepsGone}

abbrev pub empty : Server
empty = record { texts = []; counts = []; now = 100 }

abbrev pub sum : Bytes → Bytes
sum token = token

abbrev pub address : Bytes
address = codes "a@b.c"

abbrev pub raw : Bytes
raw = codes "t"

abbrev pub after_issue : Server
after_issue = record empty {
  texts = (codes "authtoken:t", (address, 900000000100)) ∷ [];
  counts = (codes "authrate:a@b.c", 1) ∷ [];
}

pub issued : issue server sum 5 address (ok raw) empty ≡ (ok raw, after_issue)
unfolding issue store_token token_key lookup insert bytes_beq
issued = refl

abbrev pub after_consume : Server
after_consume = record after_issue { texts = (codes "authtoken:t", ([], 0)) ∷ [] }

pub consumed_once : consume server sum raw after_issue ≡ (ok address, after_consume)
unfolding consume consume_script token_key lookup insert bytes_beq
consumed_once = refl

-- The token is tried again, and once more.
abbrev tried : Server
tried = (consume server sum raw (server.wait 3 after_consume)).1

consume-single_example : consume server sum raw tried ≢ (ok address, empty)
consume-single_example =
    consume-single server sum server-KeepsGone server-IsRedis raw address after_issue after_consume
      tried empty address consumed_once (Later.consumes raw (Later.waits 3 Later.here))

consume-issue_example :
    (consume server sum raw (server.wait 3 after_issue)).0
    ≡ (if ltb 3 token_ttl then ok address else err not_found)
consume-issue_example =
    consume-issue server server-IsRedis sum 5 address raw (ok raw) 3 empty after_issue
      (server.wait 3 after_issue)
      (server.del (token_key server sum raw) (server.wait 3 after_issue)).1
      (server.value (token_key server sum raw) (server.wait 3 after_issue)) issued refl refl refl
