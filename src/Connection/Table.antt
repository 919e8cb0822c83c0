-- ===== src/Connection/Table.antt =====
-- `RequestTable` of src/connection/table.rs. Each operation returns the table, its result, and what
-- it told the callers; an operation that fails keeps what it had changed.
pub mod Valid
pub mod Rows
pub mod Allocate
pub mod Steps
pub mod Due
pub mod Fire
pub mod Expiry
pub mod Kept
pub mod Loss
mod Tests
use smb1client_rs.Base.{
  ℕ, zero, suc, ◌+◌, ◌-◌, ◌*◌, min, Bool, true, false, ◌==◌, ◌&&◌, not, ltb, leb, if◌then◌else◌,
  Option, none, some, List, [], ◌∷◌, ◌++◌, length, Result, ok, err,
}
use smb1client_rs.Base.Dict.{lookup, insert, remove, add, delete}
use smb1client_rs.Wire.Binrw.{Binrw}
use smb1client_rs.Wire.Message.{Message}
use smb1client_rs.Connection.Error.{Error, timeout, lost, unroutable, retirement_budget, Timeouts}
use smb1client_rs.Connection.Assembly.{Assembly}
use smb1client_rs.Connection.Assembly
use smb1client_rs.Connection.Entry
use smb1client_rs.Connection.Entry.{
  Entry, State, on_wire, lapsed, retired, Effect, Step, goes_on, completed, corrupted,
  expect_failed, expires_at, charges, is_retired, deliver,
}

abbrev pub pool : ℕ
pool = 65_535

abbrev pub last_mid : ℕ
last_mid = 0xFFFE

abbrev pub retirement_limit : ℕ
retirement_limit = 1_024

abbrev pub give_up_deadlines : ℕ
give_up_deadlines = 8

pub record RequestTable : Type 0 where
  pub entries : List (ℕ × Entry)
  pub expiry : List (ℕ × ℕ)
  pub charging : ℕ
  pub retired_count : ℕ
  pub cursor : ℕ
  pub limit : ℕ
  pub timeouts : Timeouts

-- An error that the source returns, or one of its `expect`s and `unreachable`s. `out_of_fuel` is no
-- outcome of the source: the loop of `expire` stopped early.
pub data Fault : Type 0 where
  failed : Error → Fault
  panicked : Fault
  out_of_fuel : Fault

abbrev pub Outcome : Type 0
Outcome = RequestTable × Result Fault (Unit {0}) × List Effect

-- `RequestTable::new`
unfoldable pub new : ℕ → Timeouts → RequestTable
new limit timeouts = record {
  entries = [];
  expiry = [];
  charging = 0;
  retired_count = 0;
  cursor = 0;
  limit = limit;
  timeouts = timeouts;
}

-- `RequestTable::next_expiry`
unfoldable pub next_expiry : RequestTable → Option ℕ
next_expiry t = elim t.expiry [ [] ↦ none | (at, mid) ∷ rest ↦ some at ]

abbrev is_free : ℕ → List (ℕ × Entry) → Bool
is_free mid entries = elim (lookup mid entries) [ none ↦ true | some e ↦ false ]

abbrev pub next_mid : ℕ → ℕ
next_mid cursor = if cursor == last_mid then 0 else cursor + 1

-- The loop of `allocate`, with the rounds left: the cursor, and the id taken.
pub probe : ℕ → ℕ → List (ℕ × Entry) → ℕ × Option ℕ
probe zero cursor entries = (cursor, none)
probe (suc rounds) cursor entries =
    let rest = probe rounds (next_mid cursor) entries in
    if is_free cursor entries then (next_mid cursor, some cursor) else rest

-- `RequestTable::allocate`
unfoldable pub allocate : RequestTable → RequestTable × Option ℕ
allocate t =
    if leb pool (length t.entries)
    then (t, none)
    else (let (cursor, mid) = probe pool t.cursor t.entries in (record t { cursor = cursor }, mid))

-- `RequestTable::dispatch`
unfoldable pub dispatch :
    RequestTable
    → (mid command : ℕ) (reply : Option ℕ) (assembly : Option Assembly) (outcome : Option ℕ)
      (now : ℕ)
    → RequestTable
dispatch t mid command reply assembly outcome now =
    let silence_at = now + t.timeouts.per_request in
    let overall_at = now + t.timeouts.overall in
    record t {
      expiry = add (min silence_at overall_at, mid) t.expiry;
      entries =
          insert mid
            (record {
              command = command;
              assembly = assembly;
              outcome = outcome;
              state = on_wire reply silence_at overall_at;
            })
            t.entries;
      charging = t.charging + 1;
    }

-- `RequestTable::retire`
unfoldable pub retire : RequestTable → ℕ → RequestTable × Result Fault (Unit {0})
retire t mid = elim (lookup mid t.entries) [
  | none ↦ (t, err panicked)
  | some e ↦
      let t' = record t {
        entries = insert mid (record e { state = retired; assembly = none }) t.entries;
        retired_count = t.retired_count + 1;
      } in
      (
        t',
        if leb retirement_limit t'.retired_count
            then err (failed (retirement_budget t'.retired_count))
            else ok tt,
      )
]

-- `BTreeSet::remove` and `insert` of a deadline, where there is one.
abbrev unschedule : Option ℕ → ℕ → List (ℕ × ℕ) → List (ℕ × ℕ)
unschedule none mid expiry = expiry
unschedule (some at) mid expiry = delete (at, mid) expiry

abbrev schedule : Option ℕ → ℕ → List (ℕ × ℕ) → List (ℕ × ℕ)
schedule none mid expiry = expiry
schedule (some at) mid expiry = add (at, mid) expiry

-- `before != after`
abbrev same_deadline : Option ℕ → Option ℕ → Bool
same_deadline none none = true
same_deadline none (some b) = false
same_deadline (some a) none = false
same_deadline (some a) (some b) = a == b

-- The match on the step that `accept` ends with, on the table in which the row is updated.
pub settle : Step → RequestTable → ℕ → RequestTable × Result Fault (Unit {0})
unfolding retire
settle goes_on t mid = (t, ok tt)
settle completed t mid = (record t { entries = remove mid t.entries }, ok tt)
settle corrupted t mid = retire t mid
settle expect_failed t mid = (t, err panicked)

abbrev is_goes_on : Step → Bool
is_goes_on goes_on = true
is_goes_on completed = false
is_goes_on corrupted = false
is_goes_on expect_failed = false

-- The row `e` of `mid`, which is neither retired nor of another command, becomes `e'`.
pub update_row : RequestTable → ℕ → Entry → Entry → Step → RequestTable
update_row t mid e e' step =
    let before = expires_at e in
    let after = if is_goes_on step then expires_at e' else none in
    record t {
      entries = insert mid e' t.entries;
      expiry =
          if same_deadline before after
          then t.expiry
          else schedule after mid (unschedule before mid t.expiry);
      charging = if charges e && not (is_goes_on step) then t.charging - 1 else t.charging;
    }

-- `RequestTable::accept`
unfoldable pub accept : Binrw → RequestTable → Message → (now : ℕ) → Outcome
unfolding settle update_row
accept binrw t m now =
    let mid = m.header.mid in
    let command = m.header.command in
    elim (lookup mid t.entries) [
      | none ↦ (t, err (failed (unroutable mid command)), [])
      | some e ↦
          if is_retired e.state
          then (t, ok tt, [])
          else if not (e.command == command)
          then (t, err (failed (unroutable mid command)), [])
          else (let (e', step, effects) = Entry.accept binrw e m now t.timeouts.per_request in
              let (t', result) = settle step (update_row t mid e e' step) mid in
              (t', result, effects))
    ]

abbrev release_assembly : Option Assembly → Option Assembly
release_assembly none = none
release_assembly (some a) = some (Assembly.release a)

-- The row of a request that lapses.
pub lapse : Entry → (give_up_at : ℕ) → Entry × List Effect
lapse e give_up_at =
    let (e', effects) = deliver e (err timeout) in
    (record e' { assembly = release_assembly e'.assembly; state = lapsed give_up_at }, effects)

-- The match of a round of `expire` on the state of the row.
fire_in : State → Entry → RequestTable → (mid now : ℕ) → Outcome
unfolding lapse retire
fire_in (on_wire reply silence_at overall_at) e t mid now =
    let give_up_at = now + t.timeouts.overall * give_up_deadlines in
    let (e', effects) = lapse e give_up_at in
    (
      record t {
        entries = insert mid e' t.entries;
        charging = t.charging - 1;
        expiry = add (give_up_at, mid) t.expiry;
      },
      ok tt,
      effects,
    )
fire_in (lapsed given_up_at) e t mid now = let (t', result) = retire t mid in (t', result, [])
fire_in retired e t mid now = (t, err panicked, [])

-- One round of the loop of `expire`, at the deadline of `mid`, which `t` no longer lists.
pub fire : RequestTable → (mid now : ℕ) → Outcome
unfolding fire_in
fire t mid now = elim (lookup mid t.entries) [
  | none ↦ (t, err panicked, [])
  | some e ↦ fire_in e.state e t mid now
]

-- What a round leads to: the end, at an error, or the rest of the loop.
abbrev and_then : Outcome → (RequestTable → Outcome) → Outcome
and_then (t, err e, effects) next = (t, err e, effects)
and_then (t, ok done, effects) next =
    let (t', result, more) = next t in (t', result, effects ++ more)

-- The first of the index, where the clock has reached it, and the index without it.
pub due : List (ℕ × ℕ) → (now : ℕ) → Option (ℕ × List (ℕ × ℕ))
due [] now = none
due ((at, mid) ∷ rest) now = if ltb now at then none else some (mid, rest)

-- The loop of `expire`, with fuel.
pub expire_loop : ℕ → RequestTable → (now : ℕ) → Outcome
unfolding fire due
expire_loop zero t now = (t, err out_of_fuel, [])
expire_loop (suc fuel) t now = elim (due t.expiry now) [
  | none ↦ (t, ok tt, [])
  | some (mid, rest) ↦
      and_then (fire (record t { expiry = rest }) mid now) (λ t'. expire_loop fuel t' now)
]

-- `RequestTable::expire`. Each round takes a deadline off the index, or a request off the wire.
unfoldable pub expire : RequestTable → (now : ℕ) → Outcome
unfolding expire_loop
expire t now = expire_loop (length t.expiry + t.charging + 1) t now

-- The loop of `fail_all`, over the rows.
lose : List (ℕ × Entry) → List Effect
lose [] = []
lose ((mid, e) ∷ rest) =
    if charges e
    then (let (e', effects) = deliver e (err lost) in effects ++ lose rest)
    else lose rest

-- `RequestTable::fail_all`
unfoldable pub fail_all : RequestTable → RequestTable × List Effect
unfolding lose
fail_all t = (record t { entries = []; expiry = []; charging = 0 }, lose t.entries)
