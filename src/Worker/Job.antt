-- ===== src/Worker/Job.antt =====
-- The jobs, the state of the worker and what one turn meets outside: src/worker.h, and
-- `HttpResponse` of src/transport.h.
use tombstack_native.Prelude.{ℕ, ◌*◌, Bool, false, Option, none, List, [], Bytes}
use tombstack_native.SidecarQueue.{SidecarKind, event, SidecarPath, SidecarQueue, Draw}

pub data Durability : Type 0 where
  ephemeral persist_on_failure write_ahead : Durability

pub record UploadJob : Type 0 where
  pub is_log_upload : Bool
  pub form_fields : List (Bytes × Bytes)
  pub url : Bytes
  pub body : Bytes
  pub raw : Bytes
  pub durability : Durability
  pub kind : SidecarKind
  pub sidecar_path : Option SidecarPath
  pub request_log : Bool
  pub log_from_previous : Bool
  pub no_persist : Bool
  pub parse_ack : Bool
  pub sign_body : Bool
  pub suppress_rtt : Bool
  pub attempt : ℕ
  pub not_before : ℕ

-- the default member initialisers
abbrev pub new_job : UploadJob
new_job = record {
  is_log_upload = false;
  form_fields = [];
  url = [];
  body = [];
  raw = [];
  durability = persist_on_failure;
  kind = event;
  sidecar_path = none;
  request_log = false;
  log_from_previous = false;
  no_persist = false;
  parse_ack = false;
  sign_body = false;
  suppress_rtt = false;
  attempt = 0;
  not_before = 0;
}

pub record Worker : Type 0 where
  pub queue : List UploadJob
  pub running : Bool
  pub in_flight : Bool
  pub previous_log_claimed : Bool
  pub wake_requested : Bool
  pub next_log_flush : ℕ
  pub sidecars : SidecarQueue

abbrev pub max_queue_size : ℕ
max_queue_size = 256

abbrev pub max_attempts : ℕ
max_attempts = 5

abbrev pub seconds : ℕ → ℕ
seconds n = n * 1000

-- `HttpResponse` of src/transport.h
pub record HttpResponse : Type 0 where
  pub transport_error : Bool
  pub status : ℕ
  pub body : Bytes
  pub retry_after : Bytes

-- What one turn of the worker meets outside.
pub record World : Type 0 where
  pub now : ℕ
  pub response : HttpResponse
  pub previous_log : Bytes
  pub current_log : Bytes
  pub draw : Draw
  pub ack_jobs : Option (Bytes → List UploadJob)
  pub rtt_handler : Bool

pub data Outcome : Type 0 where
  delivered transient poison : Outcome
