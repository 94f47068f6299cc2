-- ===== src/Dispatcher/Tables.antt =====
-- The dispatcher's three tables of jobs (`_streams`, `_reads` and `_cancels` of
-- hermes_a2a_gateway/broker.py). A table is the list of its keys, in the order of insertion.
use codex_a2a_gateway.Base.{
  ℕ, Bool, false, ◌||◌, Option, none, some, List, [], ◌∷◌, ◌++◌, length, leb, if◌then◌else◌,
}
use codex_a2a_gateway.Tx.Errors.{Error, Result, ok, err}
use codex_a2a_gateway.Broker.Model.{Operation}
use codex_a2a_gateway.Broker.Lifecycle.Keyed.{same_key}
use codex_a2a_gateway.Broker.Dispatches.{Key}

-- `_streams`, `_reads`, `_cancels` and `_closed`.
pub record Tables : Type 0 where
  pub streams : List Key
  pub reads : List Key
  pub cancels : List Key
  pub closed : Bool

abbrev pub no_jobs : Tables
no_jobs = record { streams = []; reads = []; cancels = []; closed = false }

-- key in table.
unfoldable pub has_job : Key → List Key → Bool
has_job k [] = false
has_job k (x ∷ keys) = same_key k.0 k.1 x.0 x.1 || has_job k keys

-- table[key] = job: a key that is there stays where it is.
unfoldable pub put_job : Key → List Key → List Key
put_job k keys = if has_job k keys then keys else keys ++ (k ∷ [])

-- How a call ends. A loop that is cut off before its test has failed is told apart.
pub data Ended : Type 0 where
  returned : Ended
  raised : Error → Ended
  cut_off : Ended

-- What `job.result()` answers for the jobs that are done.
abbrev pub Finished : Type 0
Finished = Key → Option (Result (Unit {0}))

-- for key, job in list(tasks.items()): a job that is done leaves its table, and its exception is
-- raised.
abbrev pub keep_job : Key → Ended × List Key → Ended × List Key
keep_job k (e, keys) = (e, k ∷ keys)

abbrev pub reap_job :
    Key → List Key → Ended × List Key → Option (Result (Unit {0})) → Ended × List Key
reap_job k keys rest none = keep_job k rest
reap_job k keys rest (some (ok _)) = rest
reap_job k keys rest (some (err e)) = (Ended.raised e, keys)

unfoldable pub reap : Finished → List Key → Ended × List Key
reap done [] = (Ended.returned, [])
reap done (k ∷ keys) = reap_job k keys (reap done keys) (done k)

-- The jobs of the three tables that are done when a step begins.
pub record Results : Type 0 where
  pub streams : Finished
  pub reads : Finished
  pub cancels : Finished

abbrev pub and_reap : Ended → Ended × Tables → Tables → Ended × Tables
and_reap Ended.returned later t = later
and_reap e later t = (e, t)

unfoldable pub reap_tables : Results → Tables → Ended × Tables
reap_tables done t =
    let (a, streams) = reap done.streams t.streams in
    let (b, reads) = reap done.reads t.reads in
    let (c, cancels) = reap done.cancels t.cancels in
    and_reap a
      (and_reap b (c, record t { streams = streams; reads = reads; cancels = cancels })
        (record t { streams = streams; reads = reads }))
      (record t { streams = streams })

-- The bodies of the three loops on the tables.
unfoldable pub add_stream : Key → Tables → Tables
add_stream k t = record t { streams = put_job k t.streams }

unfoldable pub add_cancel : Key → Tables → Tables
add_cancel k t = record t { cancels = put_job k t.cancels }

unfoldable pub add_read : Key → Tables → Tables
add_read k t = record t { reads = put_job k t.reads }

unfoldable pub is_busy : Key → Tables → Bool
is_busy k t = (has_job k t.streams || has_job k t.reads) || has_job k t.cancels

abbrev pub row_key : {Token : Type 0} → Operation Token → Key
row_key row = (row.device_id, row.operation_id)

unfoldable pub add_reads : {Token : Type 0} → ℕ → List (Operation Token) → Tables → Tables
add_reads limit [] t = t
add_reads limit (row ∷ rows) t =
    let rest = add_reads limit rows in
    let added = add_read (row_key row) t in
    if is_busy (row_key row) t
    then rest t
    else if leb limit (length added.reads)
    then added
    else rest added
