-- ===== src/Cache.antt =====
-- internal/cache/redis.go: the wrapper of go-redis. A nil *Client is `none` in the structures that
-- hold one.
pub mod Connection
use pulse_notify.Prelude.{
  ℤ, pos, Bool, true, false, Option, none, some, List, [], ◌∷◌, if◌then◌else◌, Text,
}
use pulse_notify.Errors.{Error, sentinel, redis_nil, ok, err}
use pulse_notify.Model.{Duration}
use pulse_notify.External.{Redis, incr, expire, Codec}
use pulse_notify.State.{M, call, call_result}

-- err == redis.Nil
abbrev pub is_redis_nil : Error → Bool
is_redis_nil (sentinel redis_nil) = true
is_redis_nil _ = false

module _ {W : Type 0} (c : Redis W) where
  -- (c *Client) Get: `none` is the result ("", false, nil).
  unfoldable pub get : Text → M W (Option Text)
  get key s =
      let (r, s1) = call_result (c.get key) s in
      (
        elim r [ ok value ↦ ok (some value) | err e ↦ if is_redis_nil e then ok none else err e ],
        s1,
      )

  -- (c *Client) GetJSON: `none` is a miss, `some` a hit with the value that was read.
  unfoldable pub get_json : {A : Type 0} → Codec A → Text → M W (Option A)
  get_json codec key s =
      let (r, s1) = call_result (c.get key) s in
      (
        elim r [
          | ok value ↦ elim (codec.unmarshal value) [ ok a ↦ ok (some a) | err e ↦ err e ]
          | err e ↦ if is_redis_nil e then ok none else err e
        ],
        s1,
      )

  -- (c *Client) SetJSON
  unfoldable pub set_json : {A : Type 0} → Codec A → Text → A → Duration → M W (Unit {0})
  set_json codec key value ttl s = elim (codec.marshal value) [
    | ok text ↦ call (c.set key text ttl) s
    | err e ↦ (err e, s)
  ]

  -- (c *Client) Set
  unfoldable pub set : Text → Text → Duration → M W (Unit {0})
  set key value ttl = call (c.set key value ttl)

  -- (c *Client) Delete
  unfoldable pub delete : List Text → M W (Unit {0})
  delete keys = call (c.del keys)

  -- (c *Client) Ping
  unfoldable pub ping : M W (Unit {0})
  ping = call c.ping

  -- incr.Val(), the reply of the first command
  abbrev first_reply : List ℤ → ℤ
  first_reply [] = pos 0
  first_reply (n ∷ rest) = n

  -- (c *Client) IncrWithWindow: INCR and EXPIRE in one transaction.
  unfoldable pub incr_with_window : Text → Duration → M W ℤ
  incr_with_window key window s =
      let (r, s1) = call_result (c.tx_pipeline (incr key ∷ expire key window ∷ [])) s in
      (elim r [ ok replies ↦ ok (first_reply replies) | err e ↦ err e ], s1)
