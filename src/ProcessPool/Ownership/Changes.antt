-- ===== src/ProcessPool/Ownership/Changes.antt =====
-- internal/pool/pool.go: what the stop, the removal, the making and the health check of a worker do
-- to the places of one worker. `i` counts the places that the step takes from it or gives to it.
use maboo.Base.{ℕ, ◌+◌, ◌-◌, ◌≤◌, ◌<◌, ◌≡◌, ◌∙◌, Bool, true, false, arith}
use maboo.ProcessPool.Ownership.{Sound}

module _ {x next live dead listed launching marked seen : ℕ} {reaped shaken : Bool}
    (v : Sound x next live dead listed launching marked seen reaped shaken) where
  -- Its goroutine stops it.
  pub stopped-Sound :
      {live' dead' : ℕ} {reaped' : Bool} (i : ℕ)
      → live' + i ≡ live
      → dead' ≡ dead + i
      → (i ≡ 0 → reaped' ≡ reaped)
      → Sound x next live' dead' listed launching marked seen reaped' shaken
  stopped-Sound i l d r = record {
    alone = omega (arith, v.alone);
    listed_once = omega (arith, v.listed_once);
    nowhere = λ h. omega (arith, v.nowhere h);
    unmarked = v.unmarked;
    kept = λ c. omega (arith, v.kept c);
    fit = λ c h. r (omega (arith, v.alone)) ∙ v.fit c (omega arith);
    spared = λ c h. omega (arith, v.spared c h);
  }

  -- It is taken off the list by its goroutine.
  pub removed-Sound :
      {dead' listed' : ℕ} (i : ℕ)
      → dead' + i ≡ dead
      → listed' ≡ listed - i
      → Sound x next live dead' listed' launching marked seen reaped shaken
  removed-Sound i d l = record {
    alone = omega (arith, v.alone);
    listed_once = omega (arith, v.alone, v.listed_once);
    nowhere = λ h. omega (arith, v.nowhere h);
    unmarked = v.unmarked;
    kept = λ c. omega (arith, v.kept c, v.alone);
    fit = v.fit;
    spared = v.spared;
  }

  -- A goroutine that `checkHealth` started stops it, or takes it off the list.
  pub restopped-Sound :
      {marked' : ℕ} {reaped' : Bool}
      → marked' ≡ marked
      → (marked ≡ 0 → reaped' ≡ reaped)
      → Sound x next live dead listed launching marked' seen reaped' shaken
  restopped-Sound m r = record {
    alone = v.alone;
    listed_once = v.listed_once;
    nowhere = λ h. omega (arith, v.nowhere h);
    unmarked = λ h. omega (arith, v.unmarked h);
    kept = v.kept;
    fit = λ c h. r (unmarked_of c h) ∙ v.fit c h;
    spared = λ c h. v.spared c (omega arith);
  }
    where
      unmarked_of : shaken ≡ false → 0 < live → marked ≡ 0
      unmarked_of c h = ground (arith, v.spared c)

  pub discarded-Sound :
      {marked' listed' : ℕ} (i : ℕ)
      → marked' + i ≡ marked
      → listed' ≡ listed - i
      → Sound x next live dead listed' launching marked' seen reaped shaken
  discarded-Sound i m l = record {
    alone = v.alone;
    listed_once = omega (arith, v.listed_once);
    nowhere = λ h. omega (arith, v.nowhere h);
    unmarked = λ h. omega (arith, v.unmarked h);
    kept = λ c. ground (arith, v.kept c, v.spared c);
    fit = v.fit;
    spared = λ c h. v.spared c (omega arith);
  }

  -- A new id is taken.
  pub launched-Sound :
      {next' launching' : ℕ} (i : ℕ)
      → next' ≡ next + 1
      → launching' ≡ i + launching
      → i ≤ 1
      → (0 < i → x ≡ next + 1)
      → Sound x next' live dead listed launching' marked seen reaped shaken
  launched-Sound i n l few new = record {
    alone = ground (arith, v.alone, v.nowhere);
    listed_once = v.listed_once;
    nowhere = λ h. ground (arith, v.nowhere);
    unmarked = λ h. ground (arith, v.unmarked, v.nowhere);
    kept = v.kept;
    fit = v.fit;
    spared = v.spared;
  }

  -- The worker of an id is made and put on the list, or is not.
  pub joined-Sound :
      {launching' live' listed' : ℕ} {reaped' : Bool} (i : ℕ)
      → launching' + i ≡ launching
      → live' ≡ i + live
      → listed' ≡ i + listed
      → (i ≡ 0 → reaped' ≡ reaped)
      → (0 < i → reaped' ≡ false)
      → Sound x next live' dead listed' launching' marked seen reaped' shaken
  joined-Sound i l a d same new = record {
    alone = omega (arith, v.alone);
    listed_once = omega (arith, v.listed_once);
    nowhere = λ h. omega (arith, v.nowhere h);
    unmarked = λ h. v.unmarked (omega arith);
    kept = λ c. omega (arith, v.kept c);
    fit = λ c h. ground (arith, v.fit c);
    spared = λ c h. ground (arith, v.spared c h, v.unmarked);
  }

  pub unlaunched-Sound :
      {launching' : ℕ}
      → launching' ≤ launching
      → Sound x next live dead listed launching' marked seen reaped shaken
  unlaunched-Sound l = record {
    alone = omega (arith, v.alone);
    listed_once = v.listed_once;
    nowhere = λ h. omega (arith, v.nowhere h);
    unmarked = λ h. v.unmarked (omega arith);
    kept = v.kept;
    fit = v.fit;
    spared = v.spared;
  }

  -- `checkHealth` copies the list.
  pub seen-Sound : Sound x next live dead listed launching marked listed reaped shaken
  seen-Sound = record {
    alone = v.alone;
    listed_once = v.listed_once;
    nowhere = λ h. omega (arith, v.nowhere h, v.listed_once);
    unmarked = λ h. omega (arith, v.unmarked h, v.listed_once, v.alone);
    kept = v.kept;
    fit = v.fit;
    spared = v.spared;
  }

  -- `checkHealth` comes to it, and starts a goroutine for it only where its process was reaped.
  pub inspected-Sound :
      {marked' seen' : ℕ} (i k : ℕ)
      → seen' + i ≡ seen
      → marked' ≡ k + marked
      → k ≤ i
      → (0 < k → reaped ≡ true)
      → Sound x next live dead listed launching marked' seen' reaped shaken
  inspected-Sound i k s m few dead_one = record {
    alone = v.alone;
    listed_once = v.listed_once;
    nowhere = λ h. omega (arith, v.nowhere h);
    unmarked = λ h. omega (arith, v.unmarked h);
    kept = v.kept;
    fit = v.fit;
    spared = λ c h. ground (arith, v.spared c, v.fit c);
  }

  -- A `Reload` or the shutdown: it may be stopped and taken off the list.
  pub shaken-Sound :
      {listed' : ℕ} {reaped' shaken' : Bool}
      → listed' ≤ listed
      → shaken' ≡ true
      → Sound x next live dead listed' launching marked seen reaped' shaken'
  shaken-Sound l c = record {
    alone = v.alone;
    listed_once = omega (arith, v.listed_once);
    nowhere = v.nowhere;
    unmarked = v.unmarked;
    kept = λ h. cc;
    fit = λ h k. cc;
    spared = λ h k. cc;
  }
