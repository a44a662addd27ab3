-- ===== src/Lib.antt =====
-- Web RTS Nomads: the server's rules on shared and persistent state.
--
-- The server (server/internal) keeps lobbies, a registry of running matches, the state of each match
-- and the players' profiles. A lobby's start makes a match in the registry; in a match, players'
-- requests read and write one game state under one lock; profiles outlive matches and are changed by
-- HTTP routes under a lock per player. Every operation under a lock is a function on the state here,
-- and a request that the code refuses silently gives the state back.
--
-- Base: shared types. Numbers are native; `Base.Int` has Go's signed integers where a sign can
-- matter (resources, points, coordinates), without their 64-bit wrap-around but for `wrap_64`,
-- `Base.Text` texts as identifiers and maps as association lists, `Base.Float` float64 as a parameter
-- with no laws.
-- Lobbies: server/internal/game/lobbies.go (LobbyManager: Create, List, Get, FindByMatchID, Join,
-- Leave, Start, cleanupStale, generateID). The clock and the random bytes are arguments.
-- `Invariant` has the requests as steps of one server, `Expiry` the outcomes, `Listing` the order.
-- Matches: server/internal/game/manager.go and match.go (NewMatch, FindOrCreateMatch, DeleteMatch,
-- IsPlayerInActiveMatch; in `Registry`: removal timers and EvictPlayerFromOtherMatches).
-- Fow: server/internal/game/fow.go and fow_recompute.go (stampCircle, hasLOS, encodeRLE,
-- anyFootprintClear, recomputeFOWLocked). An index out of range is `none`. hasLOS runs on fuel, one
-- round more than its longer side, which `Fow.Sight` shows to be enough.
-- World: what the next parts read and write of a match (server/internal/game/state.go,
-- protocol.BuildingTile), found by id as in state_helpers.go. Pointers to one unit are one id.
-- Items: server/internal/game/state_items.go (vault; in `Actions` PurchaseItem, in `Slots`
-- EquipItem, UnequipItem, UseConsumable, TransferItem). A handler's early returns are gathered in
-- `..._checked`, the first unit, player, slot or item that passes them. `rebake` is the HP and the
-- maximal HP that applyRankModifiersLocked leaves.
-- Shops: server/internal/game/state_shop.go (rollShopLootTableLocked, RerollShop,
-- populateShopInventoryForBuildingLocked). The roll's loop has the code's own limit of rounds.
-- Training: server/internal/game/state_production.go (TrainUnit, CancelTrainingAt, costs, meat).
-- `Production` has updateUnitProductionsLocked and completeUnitProductionLocked; `Completion` is about
-- the latter, `Counts` about the countdown.
-- Profile: server/internal/profile (migrateProfile; in `Store`: Load, Save, WithLocked, GetOrCreate
-- on files that change by single disk actions, of which a crash performs the first few) and, in
-- `Handlers`, server/internal/http/profile_handlers.go and advancement_handlers.go.
-- Waves: server/internal/game/upgrade_offers.go, upgrade_apply.go, upgrade_state.go and pause.go
-- (generateUpgradeOffersLocked, tickUpgradePhaseLocked, HandleWaveUpgradeChoice,
-- HandleWaveUpgradeReroll, HandleSetPause). `fill` has one round for each place that is left.
-- `Machine` has server/internal/game/state_waves.go (initWaveManagerLocked, tickWaveLocked, the
-- gates of tickEnemySpawnpointsLocked), on the same state.
-- Pathing: server/internal/game/pathing.go. `Nearest` has findNearestWalkableAvailable and
-- findNearestUnitPathSubWalkable, with one round for each cell of the grid and one more; `AStar`
-- findPath and findUnitPath on `Heap`, container/heap over priorityQueue. The search has
-- `enough_rounds`: a pop closes a cell, which adds eight nodes at most, or uses up a node. `fuel` is
-- only for the walk back over the predecessors. `AStar.Order` says what is relied on in float scores,
-- `AStar.Bound` what the bound counts.
-- `Terrain` has buildBlockedCells and addTerrainBlocks, `Simplify` simplifyUnitPath. A
-- `map[gridPoint]bool` is a list of points.
-- Progression: server/internal/game/progression.go (rankDefForXP, addUnitXPLocked,
-- addUnitXPFloatLocked, assignUnitPathOnRankUpLocked). The loop has a round for each rank.
-- Mana: server/internal/game/mana.go (tickUnitManaRegenLocked, spendUnitManaLocked,
-- addUnitManaLocked) and recordManaRestoreEventLocked.
-- Tests: the theorems on concrete states.
--
-- Not modelled: combat, movement, abilities and perks (float simulation), the spawning of enemies,
-- loot drops, workers and construction, the loading of JSON catalogs, sockets and HTTP, the Steam
-- bridge, the client and the desktop shell. The order of map iteration is the order of an association list.
pub mod Base
pub mod Matches
pub mod Lobbies
pub mod Fow
pub mod World
pub mod Items
pub mod Shops
pub mod Training
pub mod Profile
pub mod Progression
pub mod Waves
pub mod Pathing
pub mod Mana
pub mod Tests
