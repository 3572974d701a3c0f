-- ===== src/Shell/Builtins/Table/Late.antt =====
-- The calls after the first 128 of `shell_register_builtins`.
use mira_os.Base.{List, [], ◌∷◌, codes}
use mira_os.Shell.Exec.{Builtin}
use mira_os.Shell.Builtins.Table.{Calls, builtin}
use mira_os.Shell.Builtins.Fixed.Tools.{
  builtin_byobu, builtin_gdb, builtin_ltrace, builtin_parallel, builtin_perf, builtin_screen,
  builtin_strace, builtin_tmux, builtin_valgrind, builtin_vmware,
}
use mira_os.Shell.Builtins.Time.{builtin_timeout}
use mira_os.Shell.Builtins.Fixed.System.{
  builtin_dbus, builtin_free, builtin_htop, builtin_insmod, builtin_iostat, builtin_lsmod,
  builtin_lspci, builtin_lsusb, builtin_modprobe, builtin_mpstat, builtin_nice, builtin_pgrep,
  builtin_pkill, builtin_renice, builtin_rmmod, builtin_sar, builtin_sysctl, builtin_systemd,
  builtin_top, builtin_vmstat,
}
use mira_os.Shell.Builtins.Jobs.{builtin_killall}
use mira_os.Shell.Builtins.Fixed.Disks.{
  builtin_dd, builtin_fdisk, builtin_fsck, builtin_lsblk, builtin_mkfs, builtin_mkswap,
  builtin_partprobe, builtin_swapoff, builtin_swapon,
}
use mira_os.Shell.Builtins.Fixed.Network.{
  builtin_brctl, builtin_dig, builtin_host, builtin_ifdown, builtin_ifup, builtin_ip, builtin_mtr,
  builtin_netcat, builtin_nmap, builtin_nslookup, builtin_socat, builtin_tcpdump,
  builtin_traceroute, builtin_tshark, builtin_wireshark,
}

unfoldable pub late_entries : Calls → List Builtin
late_entries c =
    builtin (codes "vmware") builtin_vmware (codes "Virtualization platform")
    ∷ builtin (codes "parallel") builtin_parallel (codes "Execute commands in parallel")
    ∷ builtin (codes "timeout") (builtin_timeout c.execute) (codes "Run a command with time limit")
    ∷ builtin (codes "nice") builtin_nice (codes "Run a program with modified priority")
    ∷ builtin (codes "renice") builtin_renice (codes "Alter priority of running processes")
    ∷ builtin (codes "killall") builtin_killall (codes "Kill processes by name")
    ∷ builtin (codes "pgrep") builtin_pgrep (codes "Look up processes")
    ∷ builtin (codes "pkill") builtin_pkill (codes "Kill processes by name")
    ∷ builtin (codes "top") builtin_top (codes "Display dynamic real-time information")
    ∷ builtin (codes "htop") builtin_htop (codes "Interactive process viewer")
    ∷ builtin (codes "free") builtin_free (codes "Display amount of free and used memory")
    ∷ builtin (codes "vmstat") builtin_vmstat (codes "Virtual memory statistics")
    ∷ builtin (codes "iostat") builtin_iostat (codes "Report CPU and I/O statistics")
    ∷ builtin (codes "mpstat") builtin_mpstat (codes "Report processor statistics")
    ∷ builtin (codes "sar") builtin_sar (codes "Collect and report system activity")
    ∷ builtin (codes "strace") builtin_strace (codes "Trace system calls and signals")
    ∷ builtin (codes "ltrace") builtin_ltrace (codes "Trace library calls")
    ∷ builtin (codes "gdb") builtin_gdb (codes "GNU debugger")
    ∷ builtin (codes "valgrind") builtin_valgrind (codes "Memory debugging tool")
    ∷ builtin (codes "perf") builtin_perf (codes "Performance analysis tool")
    ∷ builtin (codes "sysctl") builtin_sysctl (codes "Configure kernel parameters")
    ∷ builtin (codes "modprobe") builtin_modprobe (codes "Add/remove kernel modules")
    ∷ builtin (codes "insmod") builtin_insmod (codes "Insert module into the kernel")
    ∷ builtin (codes "rmmod") builtin_rmmod (codes "Remove module from the kernel")
    ∷ builtin (codes "lsmod") builtin_lsmod (codes "Show kernel module status")
    ∷ builtin (codes "lspci") builtin_lspci (codes "List PCI devices")
    ∷ builtin (codes "lsusb") builtin_lsusb (codes "List USB devices")
    ∷ builtin (codes "lsblk") builtin_lsblk (codes "List block devices")
    ∷ builtin (codes "fdisk") builtin_fdisk (codes "Disk partition manipulator")
    ∷ builtin (codes "partprobe") builtin_partprobe (codes "Inform OS of partition changes")
    ∷ builtin (codes "mkfs") builtin_mkfs (codes "Build a Linux filesystem")
    ∷ builtin (codes "fsck") builtin_fsck (codes "Check and repair filesystem")
    ∷ builtin (codes "dd") builtin_dd (codes "Convert and copy files")
    ∷ builtin (codes "mkswap") builtin_mkswap (codes "Set up a swap area")
    ∷ builtin (codes "swapon") builtin_swapon (codes "Enable devices and files for swapping")
    ∷ builtin (codes "swapoff") builtin_swapoff (codes "Disable devices and files for swapping")
    ∷ builtin (codes "brctl") builtin_brctl (codes "Ethernet bridge administration")
    ∷ builtin (codes "ip") builtin_ip (codes "Show or manipulate routing and devices")
    ∷ builtin (codes "ifup") builtin_ifup (codes "Bring a network interface up")
    ∷ builtin (codes "ifdown") builtin_ifdown (codes "Take a network interface down")
    ∷ builtin (codes "host") builtin_host (codes "DNS lookup utility")
    ∷ builtin (codes "dig") builtin_dig (codes "DNS lookup utility")
    ∷ builtin (codes "nslookup") builtin_nslookup (codes "Query Internet name servers")
    ∷ builtin (codes "traceroute") builtin_traceroute (codes "Trace route to host")
    ∷ builtin (codes "mtr") builtin_mtr (codes "Network diagnostic tool")
    ∷ builtin (codes "tcpdump") builtin_tcpdump (codes "Dump traffic on a network")
    ∷ builtin (codes "wireshark") builtin_wireshark (codes "Network protocol analyzer")
    ∷ builtin (codes "tshark") builtin_tshark (codes "Network protocol analyzer")
    ∷ builtin (codes "nmap") builtin_nmap (codes "Network exploration and security auditing")
    ∷ builtin (codes "netcat") builtin_netcat (codes "TCP/IP swiss army knife")
    ∷ builtin (codes "socat") builtin_socat (codes "Multipurpose relay")
    ∷ builtin (codes "screen") builtin_screen (codes "Screen manager with VT100/ANSI emulation")
    ∷ builtin (codes "tmux") builtin_tmux (codes "Terminal multiplexer")
    ∷ builtin (codes "byobu") builtin_byobu (codes "Text-based window manager")
    ∷ builtin (codes "dbus") builtin_dbus (codes "Interprocess messaging system")
    ∷ builtin (codes "systemd") builtin_systemd (codes "System and service manager")
    ∷ []
