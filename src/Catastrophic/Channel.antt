-- ===== src/Catastrophic/Channel.antt =====
-- The event bus of src/catastrophic.rs: an unbounded channel of the standard library, as its queue
-- and the state of its two ends. `none` is a call that blocks.
use bind.Common.{
  ℕ, zero, suc, panic, Bool, true, false, Option, none, some, List, [], ◌∷◌, ◌++◌, if◌then◌else◌,
  Result, ok, err,
}

pub record EventChannel (E : Type 0) : Type 0 where
  pub queue : List E
  pub receiver_alive : Bool
  pub sender_alive : Bool

pub data TryRecvError : Type 0 where
  queue_empty disconnected : TryRecvError

pub data RecvError : Type 0 where
  no_sender : RecvError

pub data RecvTimeoutError : Type 0 where
  timed_out hung_up : RecvTimeoutError

-- What happens first while a receiver waits: nothing before the time is over, an event that is sent, or
-- the drop of the last sender.
pub data Wait (E : Type 0) : Type 0 where
  quiet closes : Wait E
  arrives : E → Wait E

-- What an iteration over the receiver has come to, with the events that it has given: its end, a call
-- that blocks, or neither yet.
pub data Iteration (E : Type 0) : Type 0 where
  ended blocked unfinished : List E → Iteration E

module _ {E : Type 0} where
  -- `CatastrophicEventBus::new`
  abbrev pub new_channel : EventChannel E
  new_channel = record { queue = []; receiver_alive = true; sender_alive = true }

  -- `CatastrophicEventBus::default`: the receiver is dropped.
  abbrev pub default_channel : EventChannel E
  default_channel = record { queue = []; receiver_alive = false; sender_alive = true }

  -- The drop of a `CatastrophicEventReceiver`: what waits in the channel is lost.
  unfoldable pub drop_receiver : EventChannel E → EventChannel E
  drop_receiver ch = record ch { queue = []; receiver_alive = false }

  -- The drop of the last `CatastrophicEventBus`.
  unfoldable pub drop_sender : EventChannel E → EventChannel E
  drop_sender ch = record ch { sender_alive = false }

  -- `CatastrophicEventBus::send`: an unbounded channel; without a receiver the event comes back.
  unfoldable pub send : E → EventChannel E → EventChannel E × Result E (Unit {0})
  send e ch =
      if ch.receiver_alive then (record ch { queue = ch.queue ++ (e ∷ []) }, ok tt) else (ch, err e)

  -- `CatastrophicEventBus::has_receivers`
  unfoldable pub has_receivers : EventChannel E → Bool
  has_receivers ch = true

  abbrev take_first : {X : Type 0} → List E → X → EventChannel E → EventChannel E × Result X E
  take_first [] failure ch = (ch, err failure)
  take_first (e ∷ es) failure ch = (record ch { queue = es }, ok e)

  -- `CatastrophicEventReceiver::try_recv`
  unfoldable pub try_recv : EventChannel E → EventChannel E × Result TryRecvError E
  try_recv ch = take_first ch.queue (if ch.sender_alive then queue_empty else disconnected) ch

  -- A wait on an empty channel that has a sender.
  abbrev waited : Wait E → EventChannel E → EventChannel E × Result RecvTimeoutError E
  waited quiet ch = (ch, err timed_out)
  waited (arrives e) ch = (ch, ok e)
  waited closes ch = (drop_sender ch, err hung_up)

  -- `CatastrophicEventReceiver::recv`
  unfoldable pub recv : EventChannel E → Option (EventChannel E × Result RecvError E)
  recv ch = elim (ch.queue) [
    | [] ↦ if ch.sender_alive then none else some (ch, err no_sender)
    | e ∷ es ↦ some (record ch { queue = es }, ok e)
  ]

  -- `CatastrophicEventReceiver::recv_timeout`: an event that waits is taken at once; otherwise the first
  -- thing that happens before the time is over decides.
  unfoldable pub recv_timeout : Wait E → EventChannel E → EventChannel E × Result RecvTimeoutError E
  recv_timeout w ch = elim (ch.queue) [
    | [] ↦ if ch.sender_alive then waited w ch else (ch, err hung_up)
    | e ∷ es ↦ (record ch { queue = es }, ok e)
  ]

  -- One call of `next` after another on the iterator, `n` at most.
  abbrev yield_item : E → EventChannel E × Iteration E → EventChannel E × Iteration E
  yield_item e (ch, ended es) = (ch, ended (e ∷ es))
  yield_item e (ch, blocked es) = (ch, blocked (e ∷ es))
  yield_item e (ch, unfinished es) = (ch, unfinished (e ∷ es))

  -- `CatastrophicEventReceiver::iter`: `recv` until it fails.
  unfoldable pub iter : ℕ → EventChannel E → EventChannel E × Iteration E
  iter zero ch = (ch, unfinished [])
  iter (suc n) ch = elim (recv ch) [
    | none ↦ (ch, blocked [])
    | some (ch', ok e) ↦ yield_item e (iter n ch')
    | some (ch', err failure) ↦ (ch', ended [])
    | some (ch', panic) ↦ (ch', ended [])
  ]
