-- ===== src/Thread.antt =====
-- Thread and Semaphore of chord/thread.h and chord/thread.cpp: one Thread object, the thread that
-- constructs and destroys it, and the thread that it starts. A step is one statement of either.
pub mod Start
pub mod Dangling
mod Tests
use chord_server.Prelude.{
  ℕ, zero, suc, ◌+◌, ◌-◌, ◌<◌, Bool, true, false, not, ◌&&◌, ◌≡◌, [], Option, none, some, ◌==◌,
  if◌then◌else◌, is_empty, take, Bytes, codes,
}

-- Where the owner of the object is: in the constructor before `pthread_create` or in
-- `m_semaphore.wait()`, behind the constructor, behind `join`, behind the destructor, or out of the
-- constructor by an exception.
pub data Owner : Type 0 where
  creating waiting constructed joined destroyed failed : Owner

-- The statement of `Thread::run` that comes next; `unborn` if there is no thread yet.
pub data Place : Type 0 where
  unborn entered bound named identified titled swapped notified finished : Place

-- `class Thread`; a callback is named by a number, and `semaphore` is the count of `m_semaphore`.
pub record ThreadObject : Type 0 where
  pub id : Option ℕ
  pub handle : ℕ
  pub cb : Option ℕ
  pub name : Bytes
  pub semaphore : ℕ

-- `t_thread`, which is this object or null, and `t_thread_name`, of the new thread.
pub record ThreadLocals : Type 0 where
  pub has_this : Bool
  pub name : Bytes

-- The object, and whether it still exists; both threads; the name that the system keeps; the local
-- `cb` of `run`, and the callback that was called; and whether an object that no longer exists was
-- used.
pub record Handover : Type 0 where
  pub object : ThreadObject
  pub alive : Bool
  pub owner : Owner
  pub place : Place
  pub locals : ThreadLocals
  pub title : Bytes
  pub taken : Option ℕ
  pub called : Option ℕ
  pub fault : Bool

abbrev pub unknown_name : Bytes
unknown_name = codes "UNKNOW"

abbrev pub name_or_unknown : Bytes → Bytes
name_or_unknown name = if is_empty name then unknown_name else name

-- The members, and the body up to `pthread_create`.
abbrev pub begin_thread : ℕ → Bytes → Handover
begin_thread cb name = record {
  object = record {
    id = none;
    handle = 0;
    cb = some cb;
    name = name_or_unknown name;
    semaphore = 0;
  };
  alive = true;
  owner = creating;
  place = unborn;
  locals = record { has_this = false; name = unknown_name };
  title = [];
  taken = none;
  called = none;
  fault = false;
}

-- `pthread_create` succeeds with a handle, or fails and the constructor throws.
unfoldable pub create : Handover → ℕ → Handover
create h handle = record h {
  object = record h.object { handle = handle };
  owner = waiting;
  place = entered;
}

unfoldable pub create_fails : Handover → Handover
create_fails h = record h { owner = failed; alive = false }

-- `Semaphore::Semaphore`, given what `sem_init` answers: it throws on an error.
unfoldable pub new_semaphore : ℕ → ℕ → Option ℕ
new_semaphore rt count = if rt == 0 then some count else none

unfoldable pub begin_with : ℕ → Bytes → Option ℕ → Handover
begin_with cb name none = create_fails (begin_thread cb name)
begin_with cb name (some count) =
    let h = begin_thread cb name in record h { object = record h.object { semaphore = count } }

-- `Thread::Thread` up to `pthread_create`, given what `sem_init` answers for the member
-- `m_semaphore`, which starts at zero: if it throws, there is no object.
unfoldable pub construct : ℕ → ℕ → Bytes → Handover
unfolding new_semaphore begin_with
construct rt cb name = begin_with cb name (new_semaphore rt 0)

-- `Semaphore::wait`, which takes one from a count that is not zero, or throws if `sem_wait` fails;
-- then the constructor throws, and the object is gone.
unfoldable pub wait : Handover → Handover
wait h = record h {
  object = record h.object { semaphore = h.object.semaphore - 1 };
  owner = constructed;
}

unfoldable pub wait_fails : Handover → Handover
wait_fails h = record h { owner = failed; alive = false }

-- A use of the object by the new thread.
abbrev pub use_object : Handover → Handover → Handover
use_object h next = if h.alive then next else record h { fault = true }

-- `Semaphore::notify`: `sem_post` fails only at the largest count, and this one is zero before.
abbrev pub notify : ThreadObject → ThreadObject
notify o = record o { semaphore = o.semaphore + 1 }

-- The next statement of `Thread::run`, in a thread with the given id.
unfoldable pub run_at : Place → ℕ → Handover → Handover
run_at unborn tid h = h
run_at entered tid h = record h { locals = record h.locals { has_this = true }; place = bound }
run_at bound tid h =
    use_object h (record h { locals = record h.locals { name = h.object.name }; place = named })
run_at named tid h =
    use_object h (record h { object = record h.object { id = some tid }; place = identified })
run_at identified tid h = use_object h (record h { title = take 15 h.object.name; place = titled })
run_at titled tid h =
    use_object h
      (record h { object = record h.object { cb = none }; taken = h.object.cb; place = swapped })
run_at swapped tid h = use_object h (record h { object = notify h.object; place = notified })
run_at notified tid h = record h { called = h.taken; place = finished }
run_at finished tid h = h

unfoldable pub run : ℕ → Handover → Handover
unfolding run_at
run tid h = run_at h.place tid h

-- `Thread::GetThis` and `Thread::GetName` in the new thread, and `Thread::getName`.
unfoldable pub get_this : Handover → Bool
get_this h = h.locals.has_this

unfoldable pub get_name : Handover → Bytes
get_name h = h.locals.name

unfoldable pub object_name : Handover → Bytes
object_name h = h.object.name

-- `Thread::SetName`, called by the callback.
unfoldable pub set_name : Handover → Bytes → Handover
set_name h name =
    let renamed = record h { locals = record h.locals { name = name } } in
    if is_empty name
    then h
    else if h.locals.has_this
    then use_object h (record renamed { object = record h.object { name = name } })
    else renamed

-- `Thread::join`, given what `pthread_join` answers: it waits for the thread's end, or answers an
-- error, which `join` throws.
unfoldable pub join_throws : Handover → ℕ → Bool
join_throws h rt = not (h.object.handle == 0) && not (rt == 0)

unfoldable pub join : Handover → ℕ → Handover
join h rt =
    if h.object.handle == 0
    then record h { owner = joined }
    else if rt == 0
    then record h { object = record h.object { handle = 0 }; owner = joined }
    else h

-- `Thread::~Thread`: a thread that was not joined is detached.
unfoldable pub destroy : Handover → Handover
destroy h = record h { owner = destroyed; alive = false }

-- What the two threads may do next, if no wait is interrupted, and if the callback renames its
-- thread only while the object exists. A handle of a thread is not zero.
pub data Step (tid : ℕ) (h : Handover) : Handover → Type 0 where
  creates : (handle : ℕ) → h.owner ≡ creating → (handle == 0) ≡ false → Step tid h (create h handle)
  gives_up : h.owner ≡ creating → Step tid h (create_fails h)
  waits : h.owner ≡ waiting → 0 < h.object.semaphore → Step tid h (wait h)
  runs : Step tid h (run tid h)
  renames : (name : Bytes) → h.place ≡ notified → h.alive ≡ true → Step tid h (set_name h name)
  joins : h.owner ≡ constructed → h.place ≡ finished → Step tid h (join h 0)
  joins_again : (rt : ℕ) → h.owner ≡ joined → Step tid h (join h rt)
  fails_to_join :
      (rt : ℕ) → h.owner ≡ constructed → join_throws h rt ≡ true → Step tid h (join h rt)
  destroys : h.owner ≡ constructed → Step tid h (destroy h)
  destroys_joined : h.owner ≡ joined → Step tid h (destroy h)

-- The steps of both threads, in any order.
pub data Reaches (cb tid : ℕ) (name : Bytes) : Handover → Type 0 where
  start : (rt : ℕ) → Reaches cb tid name (construct rt cb name)
  step : {h k : Handover} → Reaches cb tid name h → Step tid h k → Reaches cb tid name k
