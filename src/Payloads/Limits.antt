-- ===== src/Payloads/Limits.antt =====
-- The schema maxima: `namespace limits` of src/payloads.h.
use tombstack_native.Prelude.{ℕ}

abbrev pub build_version : ℕ
build_version = 64

abbrev pub signature : ℕ
signature = 128

abbrev pub stack_hint : ℕ
stack_hint = 512

abbrev pub stack_trace : ℕ
stack_trace = 8192

abbrev pub user_id : ℕ
user_id = 128

abbrev pub steam_id : ℕ
steam_id = 32

abbrev pub bug_category : ℕ
bug_category = 32

abbrev pub bug_message : ℕ
bug_message = 4000

abbrev pub event_name : ℕ
event_name = 64

abbrev pub event_attributes : ℕ
event_attributes = 32

abbrev pub event_attribute_key : ℕ
event_attribute_key = 64

abbrev pub event_attribute_value : ℕ
event_attribute_value = 512

abbrev pub session_id : ℕ
session_id = 64

abbrev pub role : ℕ
role = 16

abbrev pub server_id : ℕ
server_id = 128

abbrev pub match_id : ℕ
match_id = 128

abbrev pub metric_name : ℕ
metric_name = 64

abbrev pub metric_unit : ℕ
metric_unit = 16

abbrev pub pull_target_type : ℕ
pull_target_type = 32

abbrev pub pull_target_value : ℕ
pull_target_value = 128

abbrev pub pull_reason : ℕ
pull_reason = 280

abbrev pub pull_nonce : ℕ
pull_nonce = 256

abbrev pub environment : ℕ
environment = 64

abbrev pub region : ℕ
region = 64

abbrev pub hostname : ℕ
hostname = 255

abbrev pub user_metadata_keys : ℕ
user_metadata_keys = 16

abbrev pub user_metadata_key : ℕ
user_metadata_key = 64

abbrev pub user_metadata_value : ℕ
user_metadata_value = 512

abbrev pub device_model : ℕ
device_model = 256

abbrev pub device_type : ℕ
device_type = 32

abbrev pub device_os : ℕ
device_os = 256

abbrev pub device_os_family : ℕ
device_os_family = 48

abbrev pub device_cpu : ℕ
device_cpu = 256

abbrev pub device_gpu : ℕ
device_gpu = 256

abbrev pub device_gpu_vendor : ℕ
device_gpu_vendor = 256

abbrev pub device_gpu_version : ℕ
device_gpu_version = 256

abbrev pub device_gpu_api : ℕ
device_gpu_api = 64

abbrev pub device_screen : ℕ
device_screen = 32

abbrev pub device_orientation : ℕ
device_orientation = 32

abbrev pub device_language : ℕ
device_language = 48

abbrev pub device_engine : ℕ
device_engine = 48

abbrev pub device_scripting_backend : ℕ
device_scripting_backend = 32

abbrev pub device_platform : ℕ
device_platform = 48
