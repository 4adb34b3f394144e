-- ===== src/Examples/Logins.antt =====
-- Two attempts from one address, of which one may be made in a window.
use dnf_mock_server_client.Prelude.{nat_eq, ◌≡◌, refl, some, List, [], ◌∷◌}
use dnf_mock_server_client.Map.{find, assign}
use dnf_mock_server_client.Limiter.{
  Limiter, LimiterOptions, LoginAdmissionStatus, new_limiter, is_valid_options, try_acquire,
  find_and_prune, prune_front, make_room, admit, note_attempt, normalize_account_login_id,
}
use dnf_mock_server_client.Limiter.Bounds.{Inv, Call, acquire, end_job, run, limiter_run-Inv}

abbrev options : LimiterOptions
options = record {
  max_attempts_per_ip = 1;
  max_attempts_per_account = 2;
  max_concurrent_password_jobs = 2;
  max_tracked_ips = 3;
  max_tracked_accounts = 3;
  attempt_window = 60000;
}

abbrev limiter : Limiter
limiter = record {
  options = options;
  ip_attempts = [];
  account_attempts = [];
  stats = record {
    concurrent_password_jobs = 0;
    accepted_attempts = 0;
    rejected_by_ip = 0;
    rejected_by_account = 0;
    rejected_by_concurrency = 0;
    rejected_by_tracking_capacity = 0;
  };
}

was_made : new_limiter options ≡ some limiter
unfolding new_limiter is_valid_options
was_made = refl

-- The account ids "Ann" and "ann" are one account.
abbrev calls : List Call
calls =
    acquire 1000 (49 ∷ []) (65 ∷ 110 ∷ 110 ∷ [])
    ∷ acquire 2000 (49 ∷ []) (97 ∷ 110 ∷ 110 ∷ [])
    ∷ end_job
    ∷ []

-- A second attempt in the window is refused.
second_refused :
    (try_acquire (try_acquire limiter 1000 (49 ∷ []) (65 ∷ [])).0 2000 (49 ∷ []) (97 ∷ [])).1
    ≡ LoginAdmissionStatus.rate_limited
unfolding try_acquire find_and_prune prune_front make_room admit note_attempt
    normalize_account_login_id find assign
second_refused = refl

limiter_run-Inv_example : Inv (run limiter calls)
limiter_run-Inv_example = limiter_run-Inv options limiter calls was_made
