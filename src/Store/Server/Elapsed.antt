-- ===== src/Store/Server/Elapsed.antt =====
-- The time that the statistics count.
use sd.Common.{ℕ, ◌+◌, ◌-◌, ◌*◌, ◌%◌, ◌^◌, ◌≤◌, ◌≡◌, refl, ap, arith}
use sd.Store.Server.{Timeval, Server, update_stats}

-- The microseconds of a time since its start.
abbrev pub microseconds : Timeval → ℕ
microseconds t = t.tv_sec * 1000000 + t.tv_usec

-- A request that takes `elapsed` microseconds and meets `turns` changes of the second counts one
-- operation, and adds that time less a million for each change, modulo 2 ^ 64.
pub update_stats_lem :
    (start end : Timeval) (elapsed turns : ℕ) (s : Server)
    → microseconds end ≡ microseconds start + elapsed
    → end.tv_sec ≡ start.tv_sec + turns
    → start.tv_usec ≤ 2 ^ 64
    → turns * 1000000 ≤ 2 ^ 64
    → ((update_stats (start, end) s).stats.num_ops ≡ s.stats.num_ops + 1)
      × ((update_stats (start, end) s).stats.total_time_microseconds
          ≡ (s.stats.total_time_microseconds + elapsed + (2 ^ 64 - turns * 1000000)) % 2 ^ 64)
update_stats_lem start end elapsed turns s h q b c = (
  refl,
  ap (λ n. n % 2 ^ 64)
      (same start.tv_sec end.tv_sec start.tv_usec end.tv_usec s.stats.total_time_microseconds
        (2 ^ 64) h q b c),
)
  where
    same :
        (s e u v total wide : ℕ)
        → e * 1000000 + v ≡ s * 1000000 + u + elapsed
        → e ≡ s + turns
        → u ≤ wide
        → turns * 1000000 ≤ wide
        → total + v + (wide - u) ≡ total + elapsed + (wide - turns * 1000000)
    same s e u v total wide h q b c = omega arith
