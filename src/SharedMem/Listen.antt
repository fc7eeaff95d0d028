-- ===== src/SharedMem/Listen.antt =====
-- fjsharedmem.h: the table of listeners, `addListen` and `_addListen`.
pub mod Table
use fjdispatchlite.Prelude.{
  ℕ, zero, suc, ◌+◌, Bool, true, false, not, ◌&&◌, ◌||◌, Option, none, some, List, [], ◌∷◌, ◌==◌,
  if◌then◌else◌, StdSort,
}
use fjdispatchlite.FixVector.{FixVector, at, push_back, sort}
use fjdispatchlite.FixMap.{◌>>=◌}
use fjdispatchlite.SharedMem.{MailAtom, SharedRegion, SharedMem, listen_vector, put_listen, by_msg}

-- The loop that looks for a duplicate, from index i, with `n` rounds left.
unfoldable pub duplicated : FixVector MailAtom → ℕ → ℕ → ℕ → ℕ → ℕ → Option Bool
duplicated v obj msg pid i zero = some false
duplicated v obj msg pid i (suc n) =
    let rest = duplicated v obj msg pid (i + 1) n in
    at v i >>= λ to.
    if (to.obj == obj) && (to.msg == msg) && (to.pid == pid) then some true else rest

-- The loop over the messages to add; the count is that of the atoms registered.
unfoldable pub add_loop : ℕ → ℕ → FixVector MailAtom → List ℕ → ℕ → Option (FixVector MailAtom × ℕ)
unfolding duplicated
add_loop obj pid v [] regi = some (v, regi)
add_loop obj pid v (msg ∷ msgs) regi =
    let (v', added) =
      push_back v (record { msg = msg; obj = obj; pid = pid; payload_idx = none }) in
    let pushed = add_loop obj pid v' msgs (if added then regi + 1 else regi) in
    let skipped = add_loop obj pid v msgs regi in
    duplicated v obj msg pid 0 v.count >>= λ d. if d then skipped else pushed

unfoldable pub add_messages :
    StdSort MailAtom → ℕ → SharedRegion → ℕ → List ℕ → Option (SharedRegion × ℕ)
unfolding add_loop
add_messages s pid r obj msgs = add_loop obj pid (listen_vector r) msgs 0 >>= λ (v, regi).
    some (put_listen r (sort s by_msg v), regi)

-- `addListen` of one message, and of a list of them.
unfoldable pub add_listen :
    StdSort MailAtom → SharedMem → SharedRegion → ℕ → ℕ → Option (SharedRegion × Bool)
unfolding add_messages
add_listen s self r obj msg =
    if (obj == 0) || (msg == 0)
    then some (r, false)
    else if not self.needworker
    then some (r, false)
    else (add_messages s self.pid r obj (msg ∷ []) >>= λ (r', regi). some (r', not (regi == 0)))

unfoldable pub add_listen_list :
    StdSort MailAtom → SharedMem → SharedRegion → ℕ → List ℕ → Option (SharedRegion × Bool)
unfolding add_messages
add_listen_list s self r obj msgs =
    if obj == 0
    then some (r, false)
    else if not self.needworker
    then some (r, false)
    else (add_messages s self.pid r obj msgs >>= λ (r', regi). some (r', not (regi == 0)))
