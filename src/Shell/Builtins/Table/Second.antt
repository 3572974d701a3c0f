-- ===== src/Shell/Builtins/Table/Second.antt =====
-- The next 64 calls of `shell_register_builtins`.
use mira_os.Base.{List, [], ◌∷◌, codes}
use mira_os.Shell.Exec.{Builtin}
use mira_os.Shell.Builtins.Table.{Calls, builtin}
use mira_os.Shell.Builtins.Fixed.System.{
  builtin_dmesg, builtin_journalctl, builtin_logger, builtin_service, builtin_systemctl,
  builtin_time, builtin_wall, builtin_write,
}
use mira_os.Shell.Builtins.Fixed.Texts.{
  builtin_comm, builtin_cut, builtin_diff, builtin_find, builtin_join, builtin_less, builtin_more,
  builtin_paste, builtin_patch, builtin_sort, builtin_tee, builtin_tr, builtin_uniq, builtin_xargs,
}
use mira_os.Shell.Builtins.Fixed.Tools.{
  builtin_ansible, builtin_bzip2, builtin_chef, builtin_docker, builtin_emacs, builtin_gcc,
  builtin_git, builtin_go, builtin_gunzip, builtin_gzip, builtin_helm, builtin_kubectl,
  builtin_make, builtin_nano, builtin_node, builtin_perl, builtin_puppet, builtin_python,
  builtin_qemu, builtin_ruby, builtin_rustc, builtin_salt, builtin_tar, builtin_terraform,
  builtin_unzip, builtin_vagrant, builtin_vi, builtin_vim, builtin_virtualbox, builtin_xz,
  builtin_zig, builtin_zip,
}
use mira_os.Shell.Builtins.Fixed.Network.{
  builtin_curl, builtin_ifconfig, builtin_iptables, builtin_netstat, builtin_ping, builtin_route,
  builtin_scp, builtin_ss, builtin_ssh, builtin_wget,
}

unfoldable pub second_entries : Calls → List Builtin
second_entries c =
    builtin (codes "time") builtin_time (codes "Run a command and report time used")
    ∷ builtin (codes "xargs") builtin_xargs (codes "Build and execute command lines")
    ∷ builtin (codes "find") builtin_find (codes "Search for files in a directory hierarchy")
    ∷ builtin (codes "sort") builtin_sort (codes "Sort lines of text files")
    ∷ builtin (codes "uniq") builtin_uniq (codes "Report or omit repeated lines")
    ∷ builtin (codes "tr") builtin_tr (codes "Translate or delete characters")
    ∷ builtin (codes "cut") builtin_cut (codes "Remove sections from each line")
    ∷ builtin (codes "paste") builtin_paste (codes "Merge lines of files")
    ∷ builtin (codes "join") builtin_join (codes "Join lines on a common field")
    ∷ builtin (codes "comm") builtin_comm (codes "Compare two sorted files line by line")
    ∷ builtin (codes "diff") builtin_diff (codes "Compare files line by line")
    ∷ builtin (codes "patch") builtin_patch (codes "Apply a diff file to an original")
    ∷ builtin (codes "tar") builtin_tar (codes "Archive files")
    ∷ builtin (codes "gzip") builtin_gzip (codes "Compress or expand files")
    ∷ builtin (codes "gunzip") builtin_gunzip (codes "Compress or expand files")
    ∷ builtin (codes "bzip2") builtin_bzip2 (codes "Compress or expand files")
    ∷ builtin (codes "xz") builtin_xz (codes "Compress or expand files")
    ∷ builtin (codes "zip") builtin_zip (codes "Package and compress files")
    ∷ builtin (codes "unzip") builtin_unzip (codes "Extract compressed files")
    ∷ builtin (codes "ssh") builtin_ssh (codes "OpenSSH remote login client")
    ∷ builtin (codes "scp") builtin_scp (codes "Secure copy remote file transfer")
    ∷ builtin (codes "wget") builtin_wget (codes "Network downloader")
    ∷ builtin (codes "curl") builtin_curl (codes "Transfer data from or to a server")
    ∷ builtin (codes "ping") builtin_ping (codes "Send ICMP packets to network hosts")
    ∷ builtin (codes "ifconfig") builtin_ifconfig (codes "Configure network interfaces")
    ∷ builtin (codes "route") builtin_route (codes "Show or manipulate the IP routing table")
    ∷ builtin (codes "netstat") builtin_netstat (codes "Print network connections")
    ∷ builtin (codes "ss") builtin_ss (codes "Another netstat implementation")
    ∷ builtin (codes "iptables") builtin_iptables (codes "IP firewall administration")
    ∷ builtin (codes "systemctl") builtin_systemctl (codes "Control the systemd system")
    ∷ builtin (codes "service") builtin_service (codes "Run a System V init script")
    ∷ builtin (codes "journalctl") builtin_journalctl (codes "Query the systemd journal")
    ∷ builtin (codes "dmesg") builtin_dmesg (codes "Print or control the kernel ring buffer")
    ∷ builtin (codes "logger") builtin_logger (codes "Add entries to the system log")
    ∷ builtin (codes "wall") builtin_wall (codes "Send a message to every user")
    ∷ builtin (codes "write") builtin_write (codes "Send a message to another user")
    ∷ builtin (codes "tee") builtin_tee (codes "Read from stdin and write to stdout and files")
    ∷ builtin (codes "less") builtin_less (codes "View file content with pagination")
    ∷ builtin (codes "more") builtin_more (codes "File perusal filter for crt viewing")
    ∷ builtin (codes "vi") builtin_vi (codes "Vi editor")
    ∷ builtin (codes "nano") builtin_nano (codes "Nano editor")
    ∷ builtin (codes "emacs") builtin_emacs (codes "Emacs editor")
    ∷ builtin (codes "vim") builtin_vim (codes "Vim editor")
    ∷ builtin (codes "gcc") builtin_gcc (codes "GNU C compiler")
    ∷ builtin (codes "make") builtin_make (codes "GNU make utility")
    ∷ builtin (codes "git") builtin_git (codes "Distributed version control")
    ∷ builtin (codes "python") builtin_python (codes "Python interpreter")
    ∷ builtin (codes "perl") builtin_perl (codes "Perl interpreter")
    ∷ builtin (codes "ruby") builtin_ruby (codes "Ruby interpreter")
    ∷ builtin (codes "node") builtin_node (codes "Node.js runtime")
    ∷ builtin (codes "rustc") builtin_rustc (codes "Rust compiler")
    ∷ builtin (codes "go") builtin_go (codes "Go compiler")
    ∷ builtin (codes "zig") builtin_zig (codes "Zig compiler")
    ∷ builtin (codes "docker") builtin_docker (codes "Container platform")
    ∷ builtin (codes "kubectl") builtin_kubectl (codes "Kubernetes command-line tool")
    ∷ builtin (codes "helm") builtin_helm (codes "Kubernetes package manager")
    ∷ builtin (codes "terraform") builtin_terraform (codes "Infrastructure as code")
    ∷ builtin (codes "ansible") builtin_ansible (codes "IT automation platform")
    ∷ builtin (codes "puppet") builtin_puppet (codes "Configuration management")
    ∷ builtin (codes "chef") builtin_chef (codes "Configuration management")
    ∷ builtin (codes "salt") builtin_salt (codes "Configuration management")
    ∷ builtin (codes "vagrant") builtin_vagrant (codes "Development environment management")
    ∷ builtin (codes "virtualbox") builtin_virtualbox (codes "Virtualization software")
    ∷ builtin (codes "qemu") builtin_qemu (codes "Machine emulator and virtualizer")
    ∷ []
