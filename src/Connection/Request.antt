-- ===== src/Connection/Request.antt =====
-- `Request` and `Dispatch` of src/connection/mod.rs: what a handle sends the actor. A reply sender and
-- an outcome are numbers, as in the request table.
use smb1client_rs.Base.{ℕ, List, Option, none, some}

pub record Request : Type 0 where
  pub command : ℕ
  pub tid : ℕ
  pub uid : ℕ
  pub body : List ℕ
  pub max_parameter_count : ℕ
  pub max_data_count : ℕ
  pub outcome : Option ℕ

-- `Request::transaction`
abbrev pub transaction :
    (command tid uid : ℕ) → List ℕ → (max_parameter_count max_data_count : ℕ) → Request
transaction command tid uid body max_parameter_count max_data_count = record {
  command = command;
  tid = tid;
  uid = uid;
  body = body;
  max_parameter_count = max_parameter_count;
  max_data_count = max_data_count;
  outcome = none;
}

-- `Request::new`
abbrev pub new : (command tid uid : ℕ) → List ℕ → Request
new command tid uid body = transaction command tid uid body 0 0

-- `Request::outliving`
abbrev pub outliving : Request → ℕ → Request
outliving r outcome = record r { outcome = some outcome }

pub record Dispatch : Type 0 where
  pub request : Request
  pub reply : Option ℕ
