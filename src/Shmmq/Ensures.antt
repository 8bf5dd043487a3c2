-- ===== src/Shmmq/Ensures.antt =====
-- Properties of what the commands that model the functions of shmmq/shmmq.c return.
use cclab.Base.{Option, none, some}
use cclab.Shmmq.System.{Globals, Cmd, and_then}

-- A property of what a command returns, if its run is defined.
abbrev pub Ensures {κ} :
    {A W : Type 0} → (A → Globals → W → Type κ) → Option (A × Globals × W) → Type κ
Ensures P none = Unit
Ensures P (some (a, g, w)) = P a g w

-- A weaker property holds too.
pub Ensures-mono {κ μ} :
    {A W : Type 0} {P : A → Globals → W → Type κ} {Q : A → Globals → W → Type μ}
    (r : Option (A × Globals × W))
    → ((a : A) (g : Globals) (w : W) → P a g w → Q a g w)
    → Ensures P r
    → Ensures Q r
Ensures-mono none weaken h = tt
Ensures-mono (some (a, g, w)) weaken h = weaken a g w h

pub Ensures->>= {κ μ} :
    {A B W : Type 0} {P : A → Globals → W → Type κ} (Q : B → Globals → W → Type μ)
    (r : Option (A × Globals × W)) (k : A → Cmd W B)
    → Ensures P r
    → ((a : A) (g : Globals) (w : W) → P a g w → Ensures Q (k a g w))
    → Ensures Q (and_then r k)
Ensures->>= Q none k h next = tt
Ensures->>= Q (some (a, g, w)) k h next = next a g w h
