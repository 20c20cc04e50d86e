-- ===== src/HttpService/Tests.antt =====
-- The requests' properties at concrete requests
-- (src/target/o_pocket/context/http_handle/http_service_handle_objective.cpp).
use device_broker.Prelude.{◌≡◌, refl, false, Option, none, some, [], pos}
use device_broker.Requests.{UpdateTaskInfo}
use device_broker.TaskStatus.{initial}
use device_broker.TaskSuit.{SignalHandle, StateEnum}
use device_broker.HttpService.{Job, Service, Body, find_handle, g_vec_match_item}

abbrev an_update : UpdateTaskInfo
an_update = record {
  task_id = pos 110;
  testbed_pkg_path = "smb://host/pkg";
  license_file_url = "smb://host/lic";
}

abbrev update_body : Body
update_body = record {
  as_status = none;
  as_update = some an_update;
  as_terminate = none;
  as_run_objective = none;
  as_pull = none;
  as_clear = none;
}

abbrev service : Option Job → Service
service slot = record {
  suit = record { to_stop = false; task_entity = slot; task_type = StateEnum.task_none };
  control = record {
    components = record {
      threadpool_down = none;
      threadpool_run_testbed = none;
      threadpool_upload = none;
      rabbimq_msg_mg = false;
      smb_mg = none;
    };
    task = record {
      metrial_number = pos 0;
      parent_task_id = pos 0;
      username_smb = "";
      password_smb = "";
    };
    smb_usr = "";
    smb_passwd = "";
    remain_num = pos 0;
    is_running = false;
    to_task_terminate = false;
    is_terminating = false;
    status = initial;
    posted = [];
  };
}

abbrev no_signal : SignalHandle
no_signal = record { signal_status_sigint = 0 }

unknown_address : find_handle "/device_service" "GET" g_vec_match_item ≡ none
unfolding find_handle
unknown_address = refl
