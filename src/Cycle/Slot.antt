-- ===== src/Cycle/Slot.antt =====
-- One slot, driven through the Engine API: forkchoiceUpdatedV3 with attributes, getPayloadV4, and
-- newPayloadV4 of the body that came back.
use load_reth.Rpc.Types.{Engine}
