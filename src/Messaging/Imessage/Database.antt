-- ===== src/Messaging/Imessage/Database.antt =====
-- Connect and Close of messaging/imessage_adapter.go, and the account of the databases that they
-- open. The log holds what was opened and closed, the newest first.
use vassago_sdk.Prelude.{
  ℕ, suc, ◌+◌, ◌≡◌, refl, sym, ◌∙◌, ap, inl, inr, Bool, true, false, Bool-cases, not, List, [], ◌∷◌,
  ◌++◌, Option, none, some, if◌then◌else◌, Text, codes, arith, Error, Result, ok, err, Result-cases,
  Option-cases,
}
use vassago_sdk.Prelude.Int.{ℤ, pos}
use vassago_sdk.Messaging.Imessage.{
  Db, IMessageAdapter, IMessageConfig, chat_db_querier, new_imessage_adapter,
}
use vassago_sdk.Messaging.Chunks.{Service}

-- What happens to databases.
pub data DbEvent : Type 0 where
  opened : Text → DbEvent
  closed : DbEvent

-- The row id to start from; a failure is only logged.
abbrev start_rowid : Result ℤ → ℤ
start_rowid (ok n) = n
start_rowid (err e) = pos 0

-- The database that opened is checked, and held only if it answers.
abbrev check_db :
    IMessageAdapter → Db → List DbEvent → (IMessageAdapter × Option Error) × List DbEvent
check_db a db log = elim db.ping [
  | some e ↦ ((a, some (Error.wrap (codes "failed to ping iMessage database") e)), closed ∷ log)
  | none ↦
      let querier = chat_db_querier db in
      (
        (
          record a {
            db = some db;
            querier = some querier;
            last_rowid = start_rowid querier.last_rowid;
            connected = true;
          },
          none,
        ),
        log,
      )
]

-- `Connect`. `missing` says whether a file does not exist, `open_db` is `sql.Open`.
unfoldable pub connect :
    (Text → Bool)
    → (Text → Result Db)
    → IMessageAdapter
    → List DbEvent
    → (IMessageAdapter × Option Error) × List DbEvent
connect missing open_db a log =
    let path = a.config.db_path ++ codes "?mode=ro" in
    if a.connected
    then ((a, none), log)
    else if missing a.config.db_path
    then (
      (a, some (Error.message (codes "iMessage database not found at " ++ a.config.db_path))),
      log,
    )
    else elim (open_db path) [
      | err e ↦ ((a, some (Error.wrap (codes "failed to open iMessage database") e)), log)
      | ok db ↦ check_db a db (opened path ∷ log)
    ]

-- The database is let go.
abbrev drop_db : IMessageAdapter → List DbEvent → (IMessageAdapter × Option Error) × List DbEvent
drop_db a log = elim a.db [
  | none ↦ ((a, none), log)
  | some db ↦ ((record a { db = none }, db.close), closed ∷ log)
]

-- `Close`; a second close of `stopPolling` is guarded against.
unfoldable pub close :
    IMessageAdapter → List DbEvent → (IMessageAdapter × Option Error) × List DbEvent
close a log =
    if not a.connected
    then ((a, none), log)
    else drop_db (record a { stopped = if a.stopped then a.stopped else true; connected = false })
        log

pub open_count : List DbEvent → ℕ
open_count [] = 0
open_count (opened path ∷ log) = suc (open_count log)
open_count (closed ∷ log) = open_count log

pub close_count : List DbEvent → ℕ
close_count [] = 0
close_count (opened path ∷ log) = close_count log
close_count (closed ∷ log) = suc (close_count log)

abbrev held : Option Db → ℕ
held none = 0
held (some db) = 1

abbrev has_db : Option Db → Bool
has_db none = false
has_db (some db) = true

-- Every database that was opened is closed or held, and one is held exactly while connected.
abbrev pub Balanced : IMessageAdapter → List DbEvent → Type 0
Balanced a log = (open_count log ≡ close_count log + held a.db) × (a.connected ≡ has_db a.db)

-- The calls that open and close. A call of `Connect` finds the files and the databases as they are
-- at its time.
pub data Call : Type 0 where
  connecting : (Text → Bool) → (Text → Result Db) → Call
  closing : Call

abbrev after : Call → IMessageAdapter × List DbEvent → IMessageAdapter × List DbEvent
after (connecting missing open_db) (a, log) = let r = connect missing open_db a log in (r.0.0, r.1)
after closing (a, log) = let r = close a log in (r.0.0, r.1)

-- Calls one after the other.
pub run : List Call → IMessageAdapter × List DbEvent → IMessageAdapter × List DbEvent
run [] s = s
run (c ∷ cs) s = run cs (after c s)

not_held : (db : Option Db) → has_db db ≡ false → held db ≡ 0
not_held none h = refl
not_held (some db) h = cc

module _ (missing : Text → Bool) (open_db : Text → Result Db) where
  connect-Balanced :
      (a : IMessageAdapter) (log : List DbEvent)
      → Balanced a log
      → let r = connect missing open_db a log in Balanced r.0.0 r.1
  unfolding connect open_count close_count
  connect-Balanced a log h = elim (Bool-cases a.connected) [
    | inl already ↦ rw (already, connect) (h.0, sym already ∙ h.1)
    | inr apart ↦
        let none_held : held a.db ≡ 0 = not_held a.db (sym h.1 ∙ apart) in
        elim (Bool-cases (missing a.config.db_path)) [
          | inl absent ↦ rw (apart, absent, connect) (h.0, sym apart ∙ h.1)
          | inr there ↦ elim (Result-cases (open_db (a.config.db_path ++ codes "?mode=ro"))) [
            | inr (e, refused) ↦ rw (apart, there, refused, connect) h
            | inl (db, opens) ↦ elim (Option-cases db.ping) [
              | inl answers ↦
                  rw (apart, there, opens, answers, connect) (omega (arith, h.0, none_held), refl)
              | inr (e, silent) ↦
                  rw (apart, there, opens, silent, connect) (omega (arith, h.0, none_held), h.1)
            ]
          ]
        ]
  ]

close-Balanced :
    (a : IMessageAdapter) (log : List DbEvent)
    → Balanced a log
    → let r = close a log in Balanced r.0.0 r.1
unfolding close open_count close_count
close-Balanced a log h = elim (Bool-cases a.connected) [
  | inr apart ↦ rw (apart, close) (h.0, sym apart ∙ h.1)
  | inl on ↦ elim (Option-cases a.db) [
    | inl nothing ↦ rw (on, nothing, close) (omega (arith, h.0, ap held nothing), refl)
    | inr (db, holds) ↦ rw (on, holds, close) (omega (arith, h.0, ap held holds), refl)
  ]
]

run-Balanced :
    (calls : List Call) (a : IMessageAdapter) (log : List DbEvent)
    → Balanced a log
    → let s = run calls (a, log) in Balanced s.0 s.1
unfolding run
run-Balanced [] a log h = h
run-Balanced (connecting missing open_db ∷ cs) a log h =
    let r = connect missing open_db a log in
    run-Balanced cs r.0.0 r.1 (connect-Balanced missing open_db a log h)
run-Balanced (closing ∷ cs) a log h =
    let r = close a log in run-Balanced cs r.0.0 r.1 (close-Balanced a log h)

-- After any sequence of Connect and Close on a new adapter, in which each Connect finds its own
-- files and databases, every database that was opened is closed or held, and one is held exactly
-- while the adapter is connected.
pub databases_balance :
    (sender : Service Text) (home : Text) (config : IMessageConfig) (calls : List Call)
    → let s = run calls (new_imessage_adapter sender home config, []) in Balanced s.0 s.1
unfolding new_imessage_adapter open_count close_count
databases_balance sender home config calls =
    run-Balanced calls (new_imessage_adapter sender home config) [] (omega arith, refl)
