-- ===== src/Examples/Server.antt =====
-- A Redis of a few lines, which shows that what the stores rely on can hold.
use flight_circle_search.Base.{
  ℕ, ◌+◌, ◌≡◌, ◌≢◌, refl, Option, none, some, List, [], Bytes, bytes_eq, lookup, insert,
  lookup-insert, bytes_beq_iff, ltb, if◌then◌else◌, ok, arith,
}
use flight_circle_search.Auth.Redis.{Redis, IsRedis, KeepsGone}

-- The keys with a value and the time from which it is gone, the counters, and the time.
pub record Server : Type 0 where
  pub texts : List (Bytes × (Bytes × ℕ))
  pub counts : List (Bytes × ℕ)
  pub now : ℕ

abbrev live : ℕ → Option (Bytes × ℕ) → Option Bytes
live now none = none
live now (some (v, t)) = if ltb now t then some v else none

abbrev number : Option ℕ → ℕ
number none = 0
number (some n) = n

abbrev pub value : Bytes → Server → Option Bytes
value key s = live s.now (lookup key s.texts)

abbrev pub server : Redis
server = record {
  State = Server;
  value = value;
  wait = λ d s. record s { now = s.now + d };
  incr = λ key s.
      let n = number (lookup key s.counts) + 1 in
      (ok n, record s { counts = insert key n s.counts });
  expire = λ key ttl s. (ok tt, s);
  set = λ key v ttl s. (ok tt, record s { texts = insert key (v, s.now + ttl) s.texts });
  get = λ key s. (ok (value key s), s);
  del = λ key s. (ok tt, record s { texts = insert key ([], 0) s.texts });
}

server-get :
    (key : Bytes) (s s' : Server) (v : Option Bytes)
    → server.get key s ≡ (ok v, s')
    → (v ≡ value key s) × (s' ≡ s)
server-get key s s' v h = (cc, cc)

server-set :
    (key bytes : Bytes) (ttl d : ℕ) (s s' : Server)
    → server.set key bytes ttl s ≡ (ok tt, s')
    → value key (server.wait d s') ≡ (if ltb d ttl then some bytes else none)
server-set key bytes ttl d s s' h =
    ground (arith, lookup-insert key key (bytes, s.now + ttl) s.texts, bytes_beq_iff key key)

server-del :
    (key : Bytes) (d : ℕ) (s s' : Server)
    → server.del key s ≡ (ok tt, s')
    → value key (server.wait d s') ≡ none
server-del key d s s' h =
    ground (arith, lookup-insert key key ([], 0) s.texts, bytes_beq_iff key key)

pub server-IsRedis : IsRedis server
server-IsRedis = record { get_value = server-get; set_value = server-set; del_value = server-del }

live_wait : (now d : ℕ) (o : Option (Bytes × ℕ)) → live now o ≡ none → live (now + d) o ≡ none
live_wait now d none h = refl
live_wait now d (some (v, t)) h = ground arith

pub server-KeepsGone : KeepsGone server
server-KeepsGone = record {
  del_gone = λ key s s' h. gone key s s' h;
  wait_gone = λ key d s h. live_wait s.now d (lookup key s.texts) h;
  incr_gone = λ key k s n h. h;
  expire_gone = λ key k ttl s h. h;
  set_gone = λ key k bytes ttl s n h. written key k bytes ttl s n h;
  get_gone = λ key k s h. h;
  del_others = λ key k s h. removed key k s h;
}
  where
    gone : (key : Bytes) (s s' : Server) → server.del key s ≡ (ok tt, s') → value key s' ≡ none
    gone key s s' h = ground (arith, lookup-insert key key ([], 0) s.texts, bytes_beq_iff key key)

    written :
        (key k bytes : Bytes) (ttl : ℕ) (s : Server)
        → k ≢ key
        → value key s ≡ none
        → value key (server.set k bytes ttl s).1 ≡ none
    written key k bytes ttl s n h =
        ground (arith, lookup-insert key k (bytes, s.now + ttl) s.texts, bytes_beq_iff key k)

    removed :
        (key k : Bytes) (s : Server) → value key s ≡ none → value key (server.del k s).1 ≡ none
    removed key k s h = ground (arith, lookup-insert key k ([], 0) s.texts)
