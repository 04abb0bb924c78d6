-- ===== src/Ret.antt =====
-- lib/ftm_ret.h: the results that the modelled functions return, and their numbers.
use catchb.Base.{ℕ, ◌≡◌, ◌≢◌, ◌⊎◌, refl, inl, inr}

pub data Ret : Type 0 where
  ok : Ret
  error : Ret
  not_enough_memory : Ret
  semaphore_init_failed : Ret
  object_not_found : Ret
  list_not_insertable : Ret
  invalid_arguments : Ret
  list_empty : Ret
  not_initialized : Ret
  already_running : Ret
  db_exec_error : Ret
  timeout : Ret
  invalid_format : Ret
  thread_creation_error : Ret
  object_already_exist : Ret
  buffer_too_small : Ret
  function_not_supported : Ret
  invalid_ssid : Ret
  cant_create_semaphore : Ret

unfoldable code : Ret → ℕ
code ok = 0
code error = 1
code not_enough_memory = 2
code semaphore_init_failed = 3
code object_not_found = 4
code list_not_insertable = 5
code invalid_arguments = 6
code list_empty = 7
code not_initialized = 8
code already_running = 13
code db_exec_error = 24
code timeout = 30
code invalid_format = 34
code thread_creation_error = 35
code object_already_exist = 120
code buffer_too_small = 123
code function_not_supported = 37
code invalid_ssid = 173
code cant_create_semaphore = 38

pub ok_or : (r : Ret) → (r ≡ ok) ⊎ (r ≢ ok)
ok_or ok = inl refl
ok_or r = inr (λ e. cc e)
