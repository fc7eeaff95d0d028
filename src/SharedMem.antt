-- ===== src/SharedMem.antt =====
-- fjdispatchlite/fjsharedmem.h: `FJSharedMem`, messages between the objects of several processes. The
-- region is what the processes share; each function is one section under its mutex. An object is its
-- address, 0 for `nullptr`; sizes of structs are those of a 64-bit machine. The outer `none` of a
-- result is a run that does not go on: a failed `assert`, or a null pointer that is read.
pub mod Region
pub mod Listen
pub mod Notify
pub mod Worker
pub mod Process
pub mod Tracking
pub mod System
pub mod Opening
mod Tests
use fjdispatchlite.Prelude.{
  ℕ, ◌+◌, ◌*◌, Bool, true, false, Option, none, some, List, [], ◌==◌, if◌then◌else◌, replicate,
  drop, length, ◌≤◌, ◌≡◌, IsOrdered, by_key,
}
use fjdispatchlite.FixVector
use fjdispatchlite.FixVector.{FixVector}
use fjdispatchlite.FixMap
use fjdispatchlite.FixMap.{FixMap, Entry}

-- C_FJNT_LISTEN_MAX, _QUEUE_MAX, _PROCESS_MAX, _PAYLOAD_MAX, _PAYLOAD_SLOTS
abbrev pub listen_max : ℕ
listen_max = 128

abbrev pub queue_max : ℕ
queue_max = 384

abbrev pub process_max : ℕ
process_max = 24

abbrev pub payload_max : ℕ
payload_max = 512

abbrev pub payload_slots : ℕ
payload_slots = 384

-- `sizeof` of a `mailAtom`, a `proAtom` and an entry of the process table.
abbrev pub mail_atom_size : ℕ
mail_atom_size = 24

abbrev pub pro_atom_size : ℕ
pro_atom_size = 112

abbrev pub pro_entry_size : ℕ
pro_entry_size = 120

-- A `payload_idx_` of -1 is `none`.
pub record MailAtom : Type 0 where
  pub msg : ℕ
  pub obj : ℕ
  pub pid : ℕ
  pub payload_idx : Option ℕ

pub record ProAtom : Type 0 where
  pub refcount : ℕ
  pub worker : ℕ
  pub running : Bool
  pub worker_done : Bool

pub record PayloadAtom : Type 0 where
  pub in_use : Bool
  pub processed : Bool
  pub size : ℕ
  pub msg : ℕ
  pub from_pid : ℕ
  pub to_pid : ℕ
  pub sent_ms : ℕ
  pub processed_ms : ℕ
  pub bytes : List ℕ

-- The array of payloads is a function on its indices below 384.
pub record SharedRegion : Type 0 where
  pub initialized : ℕ
  pub protbl : List (Entry ProAtom)
  pub proptr : ℕ
  pub listen : List MailAtom
  pub lptr : ℕ
  pub queue : List MailAtom
  pub qptr : ℕ
  pub payload_alloc_hint : ℕ
  pub payload : ℕ → PayloadAtom

-- The fields of one object that its methods read.
pub record SharedMem : Type 0 where
  pub this : ℕ
  pub pid : ℕ
  pub needworker : Bool

unfoldable pub mail_atom_init : MailAtom
mail_atom_init = record { msg = 0; obj = 0; pid = 0; payload_idx = none }

unfoldable pub pro_atom_init : ProAtom
pro_atom_init = record { refcount = 0; worker = 0; running = true; worker_done = false }

unfoldable pub payload_atom_init : PayloadAtom → PayloadAtom
payload_atom_init p = record p {
  in_use = false;
  processed = false;
  size = 0;
  msg = 0;
  from_pid = 0;
  to_pid = 0;
  sent_ms = 0;
  processed_ms = 0;
}

-- `memset` to zero leaves a null object and `payload_idx_` 0.
abbrev pub zero_atom : MailAtom
zero_atom = record { msg = 0; obj = 0; pid = 0; payload_idx = some 0 }

unfoldable pub init_shared_region : SharedRegion → SharedRegion
unfolding payload_atom_init
init_shared_region r = record r {
  proptr = 0;
  listen = replicate listen_max zero_atom;
  lptr = 0;
  queue = replicate queue_max zero_atom;
  qptr = 0;
  payload_alloc_hint = 0;
  payload = λ i. payload_atom_init (r.payload i);
  initialized = 0;
}

-- The vectors over the region's arrays, whose count is the region's own, and the process table.
unfoldable pub listen_vector : SharedRegion → FixVector MailAtom
listen_vector r =
    fjdispatchlite.FixVector.create r.listen (mail_atom_size * listen_max) mail_atom_size r.lptr

unfoldable pub put_listen : SharedRegion → FixVector MailAtom → SharedRegion
put_listen r v = record r { listen = v.buffer; lptr = v.count }

unfoldable pub queue_vector : SharedRegion → FixVector MailAtom
queue_vector r =
    fjdispatchlite.FixVector.create r.queue (mail_atom_size * queue_max) mail_atom_size r.qptr

unfoldable pub put_queue : SharedRegion → FixVector MailAtom → SharedRegion
put_queue r v = record r { queue = v.buffer; qptr = v.count }

unfoldable pub process_table : SharedRegion → Option (FixMap ProAtom)
process_table r =
    fjdispatchlite.FixMap.create r.protbl (pro_atom_size * process_max) pro_entry_size r.proptr

unfoldable pub put_table : SharedRegion → FixMap ProAtom → SharedRegion
put_table r m = record r { protbl = m.entries; proptr = m.count }

-- The comparison of every `sort`.
abbrev pub by_msg : MailAtom → MailAtom → Bool
by_msg = by_key (λ a. a.msg)
