-- ===== src/HostDeps/Laws.antt =====
-- host_deps.py: the wiring of the hooks.
use loomground_lock.Prelude.{◌≡◌, arith}
use loomground_lock.HostDeps.{HostState, ensure_wired}

-- A second call of `ensure_wired` changes nothing.
pub ensure_wired_idem : (s : HostState) → ensure_wired (ensure_wired s) ≡ ensure_wired s
unfolding ensure_wired
ensure_wired_idem s = ground arith
