-- ===== src/Backend/Redis/Client.antt =====
-- github.com/redis/go-redis, as far as pkg/backend/redis/redis.go calls it: what the database
-- answers, and the documented effect of each command. A command on a key of the other kind is
-- refused and changes nothing, and `Val` of its answer is empty.
use mathlib.Core.List.{Mem}
use mchat.Base.{
  ℕ, ◌≡◌, ◌≤◌, ◌↔◌, Bool, true, false, not, ◌&&◌, ◌||◌, List, [], Option, none, some, Bytes, equal,
  length, if◌then◌else◌,
}
use mchat.Dict.{Dict, lookup}

pub record RedisClient : Type 1 where
  pub Db : Type 0
  pub s_is_member : Db → Bytes → Bytes → Bool
  pub s_members : Db → Bytes → List Bytes
  pub s_add : Db → Bytes → Bytes → Db
  pub s_rem : Db → Bytes → Bytes → Db
  pub s_pop_n : Db → Bytes → ℕ → Db
  pub h_set : Db → Bytes → Bytes → Bytes → Db
  pub h_get : Db → Bytes → Bytes → Bytes
  pub h_get_all : Db → Bytes → Dict Bytes
  pub del : Db → Bytes → Db

-- `.Val()` of an answer that may be missing
abbrev pub or_empty : Option Bytes → Bytes
or_empty none = []
or_empty (some v) = v

module _ (c : RedisClient) where
  open c use {Db, s_is_member, s_members, s_add, s_rem, s_pop_n, h_set, h_get, h_get_all, del}

  -- a field of the hash at a key
  abbrev pub find : Db → Bytes → Bytes → Option Bytes
  find d k f = lookup (h_get_all d k) f

  pub record IsRedis : Type 0 where
    pub mem-members : (d : Db) (k m : Bytes) → Mem m (s_members d k) ↔ (s_is_member d k m ≡ true)
    pub member-add :
        (d : Db) (k m k' m' : Bytes)
        → ((f : Bytes) → find d k f ≡ none)
        → s_is_member (s_add d k m) k' m' ≡ (equal k k' && equal m m' || s_is_member d k' m')
    pub find-add : (d : Db) (k m k' f : Bytes) → find (s_add d k m) k' f ≡ find d k' f
    pub member-rem :
        (d : Db) (k m k' m' : Bytes)
        → s_is_member (s_rem d k m) k' m' ≡ (not (equal k k' && equal m m') && s_is_member d k' m')
    pub find-rem : (d : Db) (k m k' f : Bytes) → find (s_rem d k m) k' f ≡ find d k' f
    pub member-pop :
        (d : Db) (k : Bytes) (n : ℕ) (k' m : Bytes)
        → length (s_members d k) ≤ n
        → s_is_member (s_pop_n d k n) k' m ≡ (not (equal k k') && s_is_member d k' m)
    pub find-pop :
        (d : Db) (k : Bytes) (n : ℕ) (k' f : Bytes) → find (s_pop_n d k n) k' f ≡ find d k' f
    pub find-set :
        (d : Db) (k f v k' f' : Bytes)
        → ((m : Bytes) → s_is_member d k m ≡ false)
        → find (h_set d k f v) k' f' ≡ (if equal k k' && equal f f' then some v else find d k' f')
    pub member-set :
        (d : Db) (k f v k' m : Bytes) → s_is_member (h_set d k f v) k' m ≡ s_is_member d k' m
    pub get_lem : (d : Db) (k f : Bytes) → h_get d k f ≡ or_empty (find d k f)
    pub find-del :
        (d : Db) (k k' f : Bytes) → find (del d k) k' f ≡ (if equal k k' then none else find d k' f)
    pub member-del :
        (d : Db) (k k' m : Bytes)
        → s_is_member (del d k) k' m ≡ (not (equal k k') && s_is_member d k' m)
