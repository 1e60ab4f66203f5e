-- ===== src/NodeList/Heap.antt =====
-- The memory of kernel/structures/list.c: nodes, list headers and payloads, each at its addresses.
-- An address is a number, with 0 for NULL. A command faults where it reads or writes at an address
-- that holds no node or header, and stops where an ASSERT fails.
pub mod Commands
use dionysus.Prelude.{ℕ, Bool, true, false, Option, none, some, ◌==◌, if◌then◌else◌}

abbrev pub Ptr : Type 0
Ptr = ℕ

-- node_t
pub record Node : Type 0 where
  pub prev : Ptr
  pub next : Ptr
  pub payload : Ptr  -- `data`
  pub owner : Ptr

abbrev pub node : Ptr → Ptr → Ptr → Ptr → Node
node p n d o = record { prev = p; next = n; payload = d; owner = o }

-- list_t
pub record Header : Type 0 where
  pub head : Ptr
  pub tail : Ptr

abbrev pub header : Ptr → Ptr → Header
header h t = record { head = h; tail = t }

pub record Heap : Type 0 where
  pub nodes : Ptr → Option Node
  pub lists : Ptr → Option Header
  pub payloads : Ptr → Bool

unfoldable pub write {ℓ} : {A : Type ℓ} → (Ptr → A) → Ptr → A → Ptr → A
write f p v a = if a == p then v else f a

pub data Run {ℓ} (A : Type ℓ) : Type ℓ where
  ok : A → Heap → Run A
  fault : Run A
  assert_failed : Run A
  out_of_fuel : Run A

abbrev pub Cmd {ℓ} : Type ℓ → Type ℓ
Cmd A = Heap → Run A

abbrev pub carry_on {ℓ κ} : {A : Type ℓ} {B : Type κ} → Run A → (A → Cmd B) → Run B
carry_on (ok a h) k = k a h
carry_on fault k = fault
carry_on assert_failed k = assert_failed
carry_on out_of_fuel k = out_of_fuel

infixl 5 ◌>>=◌ ◌>>◌
abbrev pub ◌>>=◌ {ℓ κ} : {A : Type ℓ} {B : Type κ} → Cmd A → (A → Cmd B) → Cmd B
m >>= k = λ h. carry_on (m h) k

abbrev pub ◌>>◌ {ℓ κ} : {A : Type ℓ} {B : Type κ} → Cmd A → Cmd B → Cmd B
m >> k = m >>= λ _. k

abbrev pub pure {ℓ} : {A : Type ℓ} → A → Cmd A
pure a h = ok a h

abbrev pub assert : Bool → Cmd (Unit {0})
assert true h = ok tt h
assert false h = assert_failed

abbrev pub expect {ℓ} : {A : Type ℓ} → Option A → Cmd A
expect none h = fault
expect (some a) h = ok a h

-- reads and writes of a whole node or header
unfoldable pub load : Ptr → Cmd Node
load p h = if p == 0 then fault else expect (h.nodes p) h

abbrev pub put : Ptr → Option Node → Cmd (Unit {0})
put p c h = ok tt (record h { nodes = write h.nodes p c })

unfoldable pub load_list : Ptr → Cmd Header
load_list l h = if l == 0 then fault else expect (h.lists l) h

abbrev pub put_list : Ptr → Option Header → Cmd (Unit {0})
put_list l c h = ok tt (record h { lists = write h.lists l c })

-- `p->prev = q` and its like
unfoldable pub set_prev : Ptr → Ptr → Cmd (Unit {0})
set_prev p q = do n ← load p; put p (some (record n { prev = q }))

unfoldable pub set_next : Ptr → Ptr → Cmd (Unit {0})
set_next p q = do n ← load p; put p (some (record n { next = q }))

unfoldable pub set_owner : Ptr → Ptr → Cmd (Unit {0})
set_owner p q = do n ← load p; put p (some (record n { owner = q }))

unfoldable pub set_head : Ptr → Ptr → Cmd (Unit {0})
set_head l q = do r ← load_list l; put_list l (some (record r { head = q }))

unfoldable pub set_tail : Ptr → Ptr → Cmd (Unit {0})
set_tail l q = do r ← load_list l; put_list l (some (record r { tail = q }))

-- `if (p) c`
abbrev pub when_set : Ptr → Cmd (Unit {0}) → Cmd (Unit {0})
when_set p c = if p == 0 then pure tt else c

abbrev pub when : Bool → Cmd (Unit {0}) → Cmd (Unit {0})
when b c = if b then c else pure tt

-- `kfree` of a node, of a header and of a payload
unfoldable pub free_node : Ptr → Cmd (Unit {0})
free_node p = load p >> put p none

unfoldable pub free_list : Ptr → Cmd (Unit {0})
free_list l = load_list l >> put_list l none

unfoldable pub free_payload : Ptr → Cmd (Unit {0})
free_payload d h = ok tt (record h { payloads = write h.payloads d false })
