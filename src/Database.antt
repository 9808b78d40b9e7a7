-- ===== src/Database.antt =====
-- The tables of the program's database (backend/app/models.py, backend/app/db.py), each behind the
-- laws of `Table`. A transaction is a function of the whole state; a rollback returns the old one.
use batch_inference_console.Models.{Job, User, BillingRecord}
use batch_inference_console.Table.{Table}
use batch_inference_console.Table.Rows.{list_table}

pub record Schema : Type 1 where
  pub jobs : Table Job
  pub users : Table User
  pub records : Table BillingRecord

pub record Db (S : Schema) : Type 0 where
  pub jobs : S.jobs.Rows
  pub users : S.users.Rows
  pub records : S.records.Rows

-- Tables held as lists, for concrete runs.
abbrev pub list_schema : Schema
list_schema = record { jobs = list_table; users = list_table; records = list_table }
