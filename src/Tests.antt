-- ===== src/Tests.antt =====
-- The theorems at work on concrete states, by component.
pub mod LobbyTests
pub mod ManaTests
pub mod MatchTests
pub mod FowTests
pub mod ItemTests
pub mod ProfileTests
pub mod TrainingTests
pub mod Whole
pub mod PathTests
pub mod RankTests
pub mod WaveTests
