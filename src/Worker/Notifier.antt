-- ===== src/Worker/Notifier.antt =====
-- internal/worker/notifier.go. Floating-point numbers are the parameter `F`, with Go's `<`; the
-- generator math/rand and the wait come from the world.
use pulse_notify.Prelude.{
  ℕ, ◌+◌, pos, ◌*ℤ◌, wrap64, Bool, Option, none, some, if◌then◌else◌, ◌++◌, codes,
}
use pulse_notify.Errors.{Error, other}
use pulse_notify.Model.{Duration, NotificationEvent}

-- What the code asks of its context.Context: ctx.Err(), and a `select` between ctx.Done() and
-- time.After(d), which is true where the context ended it.
pub record Context (W : Type 0) : Type 0 where
  pub error : W → Option Error
  pub wait : Duration → W → Bool × W

-- Notifier.Send
abbrev pub Notifier : Type 0 → Type 0
Notifier W = NotificationEvent → W → Option Error × W

-- math/rand: rand.Intn(n) and rand.Float64()
pub record Random (W F : Type 0) : Type 0 where
  pub intn : ℕ → W → ℕ × W
  pub float64 : W → F × W
  pub less : F → F → Bool

pub record SimulatedNotifier (F : Type 0) : Type 0 where
  pub failure_rate : F

abbrev pub millisecond : Duration
millisecond = pos 1000000

abbrev pub rejection : NotificationEvent → Error
rejection evt =
    other (codes "provider rejected " ++ (evt.channel ++ (codes " delivery to " ++ evt.recipient)))

module _ {W F : Type 0} (ctx : Context W) (random : Random W F) where
  -- (n *SimulatedNotifier) Send
  unfoldable pub send : SimulatedNotifier F → Notifier W
  send n evt w =
      let (jitter, w1) = random.intn 150 w in
      let delay = wrap64 (pos (50 + jitter) *ℤ millisecond) in
      let (done, w2) = ctx.wait delay w1 in
      if done
      then (ctx.error w2, w2)
      else (let (x, w3) = random.float64 w2 in
          (if random.less x n.failure_rate then some (rejection evt) else none, w3))
