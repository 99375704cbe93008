-- ===== src/Message.antt =====
-- tarsx/Message.h: what a client keeps of a request. Messages are named by numbers that stand for
-- their addresses. The monitor of a waiting caller is in `ObjectProxy`.
use tarsx.Prelude.{ℕ, Bool, false, List, [], ◌==◌, if◌then◌else◌}
use tarsx.Buffer.{Byte}

-- `CallType`.
pub data CallType : Type 0 where
  sync_call async_call one_way thread_exit : CallType

-- `ReqStatus`.
pub data ReqStatus : Type 0 where
  req_req req_rsp req_time req_busy req_exc : ReqStatus

-- `ReqMessage`, less its `objectProxy` and its monitor. Of the callback it keeps whether there is one.
pub record ReqMessage : Type 0 where
  pub status : ReqStatus
  pub type_ : CallType
  pub callback : Bool
  pub request : List Byte
  pub response : List Byte
  pub req_data : List Byte
  pub monitor_fin : Bool
  pub push : Bool
  pub begin_time : ℕ
  pub request_id : ℕ

-- A new message.
abbrev pub fresh : ReqMessage
fresh = record {
  status = req_req;
  type_ = sync_call;
  callback = false;
  request = [];
  response = [];
  req_data = [];
  monitor_fin = false;
  push = false;
  begin_time = 0;
  request_id = 1;
}

-- `init`.
unfoldable pub init : CallType → ReqMessage → ReqMessage
init calltype m = record m {
  status = req_req;
  type_ = calltype;
  req_data = [];
  monitor_fin = false;
  push = false;
  begin_time = 0;
  request_id = 1;
}

-- The message at an address, changed.
unfoldable pub update : ℕ → (ReqMessage → ReqMessage) → (ℕ → ReqMessage) → ℕ → ReqMessage
update m f msgs n = if n == m then f (msgs n) else msgs n
