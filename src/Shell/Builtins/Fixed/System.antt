-- ===== src/Shell/Builtins/Fixed/System.antt =====
-- The commands that report on the system or do nothing.
use mira_os.Base.{some, pos, codes}
use mira_os.Shell.Exec.{Handler}
use mira_os.Shell.Builtins.{draw}
use mira_os.Shell.Builtins.Fixed.{refuse}

unfoldable pub builtin_true : Handler
builtin_true env cmd = some (pos 0, env)

unfoldable pub builtin_false : Handler
builtin_false env cmd = some (pos 1, env)

unfoldable pub builtin_ulimit : Handler
builtin_ulimit env cmd = some (
  pos 0,
  draw (codes "  stack size: 8388608\n") (
      draw (codes "  open files: 1024\n")
        (draw (codes "  max user processes: 1024\n") (draw (codes "ulimit settings:\n") env))),
)

unfoldable pub builtin_trap : Handler
builtin_trap env cmd = some (pos 0, env)

unfoldable pub builtin_ps : Handler
builtin_ps env cmd = some (
  pos 0,
  draw (codes "    2 ?        00:00:00 kthreadd\n") (
      draw (codes "    1 ?        00:00:00 init\n")
        (draw (codes "  PID TTY          TIME CMD\n") env)),
)

unfoldable pub builtin_whoami : Handler
builtin_whoami env cmd = some (pos 0, draw (codes "root\n") env)

unfoldable pub builtin_id : Handler
builtin_id env cmd = some (pos 0, draw (codes "uid=0(root) gid=0(root)\n") env)

unfoldable pub builtin_time : Handler
builtin_time env cmd = some (pos 0, draw (codes "real 0m0.001s\n") env)

unfoldable pub builtin_systemctl : Handler
unfolding refuse
builtin_systemctl env cmd = refuse (codes "systemctl: unsupported in this build") env cmd

unfoldable pub builtin_service : Handler
unfolding refuse
builtin_service env cmd = refuse (codes "service: unsupported in this build") env cmd

unfoldable pub builtin_journalctl : Handler
unfolding refuse
builtin_journalctl env cmd = refuse (codes "journalctl: unsupported in this build") env cmd

unfoldable pub builtin_dmesg : Handler
builtin_dmesg env cmd = some (
  pos 0,
  draw (codes "[    0.000000] Command line: BOOT_IMAGE=/boot/kernel.elf\n")
      (draw (codes "[    0.000000] MiraOS 1.0.0 x86_64\n") env),
)

unfoldable pub builtin_logger : Handler
unfolding refuse
builtin_logger env cmd = refuse (codes "logger: unsupported in this build") env cmd

unfoldable pub builtin_wall : Handler
unfolding refuse
builtin_wall env cmd = refuse (codes "wall: unsupported in this build") env cmd

unfoldable pub builtin_write : Handler
unfolding refuse
builtin_write env cmd = refuse (codes "write: unsupported in this build") env cmd

unfoldable pub builtin_nice : Handler
builtin_nice env cmd = some (pos 1, env)

unfoldable pub builtin_renice : Handler
builtin_renice env cmd = some (pos 1, env)

unfoldable pub builtin_pgrep : Handler
builtin_pgrep env cmd = some (pos 1, env)

unfoldable pub builtin_pkill : Handler
builtin_pkill env cmd = some (pos 1, env)

unfoldable pub builtin_top : Handler
unfolding refuse
builtin_top env cmd = refuse (codes "top: unsupported in this build") env cmd

unfoldable pub builtin_htop : Handler
unfolding refuse
builtin_htop env cmd = refuse (codes "htop: unsupported in this build") env cmd

unfoldable pub builtin_free : Handler
builtin_free env cmd = some (
  pos 0,
  draw (codes "Mem:        256000      128000      128000           0          0      128000\n") (
      draw
        (codes "              total        used        free      shared  buff/cache   available\n")
        env),
)

unfoldable pub builtin_vmstat : Handler
unfolding refuse
builtin_vmstat env cmd = refuse (codes "vmstat: unsupported in this build") env cmd

unfoldable pub builtin_iostat : Handler
unfolding refuse
builtin_iostat env cmd = refuse (codes "iostat: unsupported in this build") env cmd

unfoldable pub builtin_mpstat : Handler
unfolding refuse
builtin_mpstat env cmd = refuse (codes "mpstat: unsupported in this build") env cmd

unfoldable pub builtin_sar : Handler
unfolding refuse
builtin_sar env cmd = refuse (codes "sar: unsupported in this build") env cmd

unfoldable pub builtin_sysctl : Handler
unfolding refuse
builtin_sysctl env cmd = refuse (codes "sysctl: unsupported in this build") env cmd

unfoldable pub builtin_modprobe : Handler
unfolding refuse
builtin_modprobe env cmd = refuse (codes "modprobe: unsupported in this build") env cmd

unfoldable pub builtin_insmod : Handler
unfolding refuse
builtin_insmod env cmd = refuse (codes "insmod: unsupported in this build") env cmd

unfoldable pub builtin_rmmod : Handler
unfolding refuse
builtin_rmmod env cmd = refuse (codes "rmmod: unsupported in this build") env cmd

unfoldable pub builtin_lsmod : Handler
builtin_lsmod env cmd = some (pos 0, draw (codes "Module                  Size  Used by\n") env)

unfoldable pub builtin_lspci : Handler
builtin_lspci env cmd = some (
  pos 0,
  draw (codes "00:00.0 Host bridge: Intel Corporation 440FX - 82441FX PMC [Natoma]\n") env,
)

unfoldable pub builtin_lsusb : Handler
builtin_lsusb env cmd =
    some
      (pos 0, draw (codes "Bus 001 Device 001: ID 1d6b:0001 Linux Foundation 1.1 root hub\n") env)

unfoldable pub builtin_dbus : Handler
unfolding refuse
builtin_dbus env cmd = refuse (codes "dbus: unsupported in this build") env cmd

unfoldable pub builtin_systemd : Handler
unfolding refuse
builtin_systemd env cmd = refuse (codes "systemd: unsupported in this build") env cmd
