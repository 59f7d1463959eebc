-- ===== src/Session.antt =====
-- What the service of internal/lima/lifecycle.go and disk.go runs against: a `Client`, a `DiskClient`
-- (client.go, disk.go), the context, and the lock table (locks.go). All of them reach outside the
-- process, so they are one parameter, a `Host` over a type of worlds. A method is a function of the
-- state. The trace of what it did, newest first, is kept beside the world: it is not in the code, and
-- the properties speak of it.
pub mod Discipline
pub mod Leads
pub mod Rules
pub mod Fails
pub mod Observed
pub mod Ends
pub mod Named
use terraform_provider_lima.Base.{
  ℕ, String, ℤ, Bool, true, false, ◌||◌, Option, none, some, List, [], ◌∷◌, if◌then◌else◌, ◌==◌,
}
use terraform_provider_lima.Errors.{Err}
use terraform_provider_lima.Instance.{Instance, Disk, EditRequest, CreateDiskRequest, Template}

-- What a call that returns gives back.
pub data Result (A : Type 0) : Type 0 where
  value : A → Result A
  fault : Err → Result A

-- What a method does: it returns a value or an error, or it never returns.
pub data Outcome (A : Type 0) : Type 0 where
  ok : A → Outcome A
  err : Err → Outcome A
  hang : Outcome A

abbrev pub lift_result : {A : Type 0} → Result A → Outcome A
lift_result (value a) = ok a
lift_result (fault e) = err e

-- The methods of `Client` and `DiskClient` that run one limactl command.
pub data Command : Type 0 where
  list_all disk_list : Command
  validate : String → Command
  create : String → String → Command
  edit : String → EditRequest → Command
  start stop delete protect unprotect : String → Command
  template_copy : String → Command
  create_disk : CreateDiskRequest → Command
  resize_disk : String → ℤ → Command
  delete_disk : String → Command

-- An inspection is recorded with what it found.
pub data Event : Type 0 where
  acquire release : String → Event
  issued : Command → Event
  saw : String → Result Instance → Event
  saw_disk : String → Result Disk → Event
  slept : ℕ → Event

-- `under` are the keys that the method held at the event.
pub record Entry : Type 0 where
  pub under : List String
  pub event : Event

-- Durations are nanoseconds. `wait` is the `select` of `KeyedMutex.Lock` once the context is found
-- alive, and `sleep` the wait between two polls. `finished_setup` says, of the world after a wait,
-- whether another goroutine has set `sharedReady` by then. `attempts` bounds the number of sleeps
-- that the context's deadline still admits.
pub record Host (W : Type 0) : Type 0 where
  pub inspect : String → W → Result Instance × W
  pub inspect_disk : String → W → Result Disk × W
  pub list_instances : W → Result (List Instance) × W
  pub list_disks : W → Result (List Disk) × W
  pub resolve_template : String → W → Result Template × W
  pub mutate : Command → W → Result (Unit {0}) × W
  pub ctx_err : W → Option Err
  pub wait : String → W → Result (Unit {0}) × W
  pub finished_setup : W → Bool
  pub sleep : ℕ → W → Result (Unit {0}) × W
  pub attempts : W → ℕ

pub record State (W : Type 0) : Type 0 where
  pub world : W
  pub held : List String
  pub ready : Bool
  pub trace : List Entry

abbrev pub M : Type 0 → Type 0 → Type 0
M W A = State W → Outcome A × State W

abbrev pub log_event : {W : Type 0} → Event → State W → State W
log_event e s = record s { trace = (record { under = s.held; event = e }) ∷ s.trace }

abbrev pub erase_key : String → List String → List String
erase_key k [] = []
erase_key k (j ∷ ks) = if j == k then ks else j ∷ erase_key k ks

abbrev pub settle : {A : Type 0} → Outcome A → Outcome (Result A)
settle (ok a) = ok (value a)
settle (err e) = ok (fault e)
settle hang = hang

module _ {W A : Type 0} where
  unfoldable pub pure : A → M W A
  pure a s = (ok a, s)

  unfoldable pub raise : Err → M W A
  raise e s = (err e, s)

  unfoldable pub never : M W A
  never s = (hang, s)

  -- The error is handed to the caller's code.
  unfoldable pub attempt : M W A → M W (Result A)
  attempt m s = let (r, s') = m s in (settle r, s')

module _ {W A B : Type 0} where
  abbrev pub continue : Outcome A → (A → M W B) → M W B
  continue (ok a) f s = f a s
  continue (err e) f s = (err e, s)
  continue hang f s = (hang, s)

  -- if err != nil { return err }
  infixl 10 ◌>>=◌ ◌>>◌
  unfoldable pub ◌>>=◌ : M W A → (A → M W B) → M W B
  ◌>>=◌ m f s = let (r, s') = m s in continue r f s'

  abbrev pub ◌>>◌ : M W A → M W B → M W B
  m >> n = m >>= λ _. n

unfoldable pub unlock : {W : Type 0} → String → State W → State W
unlock k s = record (log_event (release k) s) { held = erase_key k s.held }

abbrev pub run_locked :
    {W A : Type 0} → String → M W A → Outcome (Unit {0}) → State W → Outcome A × State W
run_locked k m (ok _) s = let (r, s') = m s in (r, unlock k s')
run_locked k m (err e) s = (err e, s)
run_locked k m hang s = (hang, s)

module _ {W : Type 0} (h : Host W) where
  unfoldable pub inspect : String → M W Instance
  inspect name s =
      let (r, w) = h.inspect name s.world in
      (lift_result r, log_event (saw name r) (record s { world = w }))

  unfoldable pub inspect_disk : String → M W Disk
  inspect_disk name s =
      let (r, w) = h.inspect_disk name s.world in
      (lift_result r, log_event (saw_disk name r) (record s { world = w }))

  unfoldable pub list_instances : M W (List Instance)
  list_instances s =
      let (r, w) = h.list_instances s.world in
      (lift_result r, log_event (issued list_all) (record s { world = w }))

  unfoldable pub list_disks : M W (List Disk)
  list_disks s =
      let (r, w) = h.list_disks s.world in
      (lift_result r, log_event (issued disk_list) (record s { world = w }))

  unfoldable pub resolve_template : String → M W Template
  resolve_template ref s =
      let (r, w) = h.resolve_template ref s.world in
      (lift_result r, log_event (issued (template_copy ref)) (record s { world = w }))

  -- A command that only succeeds or fails.
  unfoldable pub issue : Command → M W (Unit {0})
  issue c s =
      let (r, w) = h.mutate c s.world in
      (lift_result r, log_event (issued c) (record s { world = w }))

  unfoldable pub sleep : ℕ → M W (Unit {0})
  sleep d s =
      let (r, w) = h.sleep d s.world in
      (lift_result r, log_event (slept d) (record s { world = w }))

  abbrev granted : String → Result (Unit {0}) → State W → Outcome (Unit {0}) × State W
  granted k (value _) s = (ok tt, record (log_event (acquire k) s) { held = k ∷ s.held })
  granted k (fault e) s = (err e, s)

  -- KeyedMutex.Lock. While this goroutine waits, another may set `sharedReady`.
  unfoldable pub lock : String → M W (Unit {0})
  lock k s = elim (h.ctx_err s.world) [
    | some e ↦ (err e, s)
    | none ↦
        let (r, w) = h.wait k s.world in
        granted k r (record s { world = w; ready = s.ready || h.finished_setup w })
  ]

  -- unlock, err := Lock(ctx, k); if err != nil { return err }; defer unlock()
  unfoldable pub with_lock : {A : Type 0} → String → M W A → M W A
  with_lock k m s = let (r, s') = lock k s in run_locked k m r s'
