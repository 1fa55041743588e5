-- ===== src/Lock/Tests/Data.antt =====
-- Hosts, locks and packets that the tests of lib/lock.cc share.
use fisslock_bmv2_java.Base.{ℕ, true, false, List, [], none}
use fisslock_bmv2_java.Post.{free, lock_shared, lock_excl, Wqe, PostType, Packet}
use fisslock_bmv2_java.Lock.State.{InnetLock}
use fisslock_bmv2_java.Lock.Client.{Conf}

-- Host 1, as tests/ sets it up: local grants on, no modifier.
abbrev pub host_one : Conf
host_one = record {
  localhost_id = 1;
  bmv2 = false;
  tpcc_enb_local = false;
  enb_local_grants = true;
  packet_modify = none;
}

-- Host 1 without local grants.
abbrev pub host_without_grants : Conf
host_without_grants = record {
  localhost_id = 1;
  bmv2 = false;
  tpcc_enb_local = false;
  enb_local_grants = false;
  packet_modify = none;
}

-- The first lock beyond the switch's range, managed by host 1.
abbrev pub far_lock : InnetLock
far_lock = record {
  key = 7;
  id = 1572864;
  mode = free;
  is_agent = false;
  ncnt = 0;
  holders = [];
  wqueue = [];
  task_granted = [];
  delayed_free = false;
  early_release = [];
  fwd_back_cnt = [];
  local_holders = [];
  overrun = false;
}

-- Lock 5 of the switch, seen by a host that has nothing to do with it.
abbrev pub near_lock : InnetLock
near_lock = record {
  key = 7;
  id = 5;
  mode = free;
  is_agent = false;
  ncnt = 0;
  holders = [];
  wqueue = [];
  task_granted = [];
  delayed_free = false;
  early_release = [];
  fwd_back_cnt = [];
  local_holders = [];
  overrun = false;
}

abbrev pub waiter : Wqe
waiter = record { op = lock_excl; task = 9; host = 2 }

abbrev pub reader : Wqe
reader = record { op = lock_shared; task = 4; host = 3 }

-- Lock 5 at its agent, host 1, with the queue `ws` and no holder.
abbrev pub agent_lock : List Wqe → InnetLock
agent_lock ws = record {
  key = 7;
  id = 5;
  mode = lock_excl;
  is_agent = true;
  ncnt = 2;
  holders = [];
  wqueue = ws;
  task_granted = [];
  delayed_free = false;
  early_release = [];
  fwd_back_cnt = [];
  local_holders = [];
  overrun = false;
}

-- A packet about task `task` of host 2 and lock 5; its mode byte is `modes`.
abbrev pub packet_of : PostType → ℕ → ℕ → Packet
packet_of t modes task = record {
  type = t;
  hdr = record {
    mode_old_mode = modes;
    lock_id = 83886080;
    machine_id = 2;
    task_id = task;
    agent = 2;
    wq_size = 0;
    ncnt = 0;
  };
  wq = [];
  room = 0;
}
