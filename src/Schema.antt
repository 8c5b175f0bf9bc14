-- ===== src/Schema.antt =====
-- backend/prisma/schema.prisma: the rows of the tables and the state of the database.
-- A key (a UUID in the source) is only ever compared and is a number here; an instant is a number.
-- Postgres and Prisma are not in the repository: `Database` is a parameter of everything below.
mod Rows
pub use Rows.*
use transactguard.Prelude.{ℕ, Bool, List, Table}
use transactguard.Queue.{ChunkMessage}

pub record Database : Type 1 where
  pub transactions : Table Transaction
  -- Keyed by the transaction, which `@unique` on `transactionId` makes possible.
  pub predictions : Table Prediction
  pub jobs : Table BatchJob
  pub cases : Table Case
  pub users : Table User

-- What the services read and write: the tables, the audit log, and the messages on the queue.
pub record World (D : Database) : Type 0 where
  pub transactions : D.transactions.State
  pub predictions : D.predictions.State
  pub jobs : D.jobs.State
  pub cases : D.cases.State
  pub users : D.users.State
  pub audit : List AuditEntry
  pub queue : List ChunkMessage

-- What a request brings along: the time, whether an audit row can be written just now, and the key
-- that the database gives to a row that the request creates.
pub record Ctx : Type 0 where
  pub now : ℕ
  pub audit_up : Bool
  pub new_id : ℕ
