-- ===== src/User/Tests.antt =====
-- `user_install_into_space` at a concrete state: the program in page 5.
use nemo_os.Base.{arith, refl}
use nemo_os.Memory.Vmm.Tests.{small_machine, dozen-IsReady, small-IsSpace}
use nemo_os.User.{user_install_into_space}
use nemo_os.User.Install.{Installed, user_install_into_space-Installed}

user_install_into_space-Installed_example :
    Installed small_machine 4096 0x5000 (user_install_into_space 4096 0x5000 small_machine)
user_install_into_space-Installed_example =
    user_install_into_space-Installed small_machine 4096 0x5000 dozen-IsReady small-IsSpace
      (λ there. refl) (omega arith) (omega arith)
